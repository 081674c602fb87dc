-- ===== src/PackageIntake.antt =====
-- src/package_intake.rs: admission of a package for publication, from the evidence gathered on it.
pub mod Evidence
pub mod Admission
pub mod Outcomes
mod Tests
use zed_api_server_rs.Prelude.{
  Bool, true, false, not, ◌&&◌, ◌||◌, Option, none, some, if◌then◌else◌,
}
use zed_api_server_rs.Text.{Str, str_eq}

pub data IntakeState : Type 0 where
  received quarantined evaluated pending_approval rejected publishable published : IntakeState

pub data RiskDecision : Type 0 where
  clear require_approval reject_risk : RiskDecision

pub data ApprovalDecision : Type 0 where
  approved refused : ApprovalDecision

pub record DigestBindings : Type 0 where
  pub artifact_digest : Str
  pub source_digest : Str
  pub policy_digest : Str
  pub risk_receipt_digest : Str
  pub rebuild_receipt_digest : Str

pub record RebuildEvidence : Type 0 where
  pub receipt_digest : Str
  pub artifact_digest : Str
  pub source_digest : Str
  pub rebuilt_artifact_digest : Str
  pub declared_file_manifest_digest : Str
  pub dependency_lock_digest : Str
  pub matched : Bool

pub record RiskEvidence : Type 0 where
  pub artifact_digest : Str
  pub source_digest : Str
  pub policy_digest : Str
  pub risk_receipt_digest : Str
  pub decision : RiskDecision

pub record ApprovalEvidence : Type 0 where
  pub bindings : DigestBindings
  pub decision : ApprovalDecision

pub record AdmissionRequest : Type 0 where
  pub current_state : IntakeState
  pub artifact_digest : Str
  pub source_digest : Str
  pub policy_digest : Str
  pub rebuild : Option RebuildEvidence
  pub risk : Option RiskEvidence
  pub approval : Option ApprovalEvidence

pub data AdmissionDecision : Type 0 where
  quarantine await_approval reject_package admit : AdmissionDecision

pub data AdmissionReason : Type 0 where
  invalid_state missing_rebuild_evidence rebuild_identity_mismatch rebuild_artifact_mismatch
        missing_risk_evidence risk_identity_mismatch risk_rejected missing_approval
        approval_identity_mismatch approval_rejected all_required_evidence_bound :
      AdmissionReason

pub record AdmissionOutcome : Type 0 where
  pub decision : AdmissionDecision
  pub reason : AdmissionReason

-- `Result<T, AdmissionOutcome>`, and the `match` that returns the error.
pub data Checked (A : Type 0) : Type 0 where
  ok : A → Checked A
  err : AdmissionOutcome → Checked A

infixl 5 ◌>>=◌
abbrev pub ◌>>=◌ : {A : Type 0} → Checked A → (A → AdmissionOutcome) → AdmissionOutcome
ok a >>= k = k a
err outcome >>= k = outcome

abbrev outcome : AdmissionDecision → AdmissionReason → AdmissionOutcome
outcome decision reason = record { decision = decision; reason = reason }

unfoldable pub reject : AdmissionReason → AdmissionOutcome
reject reason = outcome reject_package reason

unfoldable pub bindings_match_request : DigestBindings → AdmissionRequest → Bool
bindings_match_request bindings request =
    str_eq bindings.artifact_digest request.artifact_digest
    && str_eq bindings.source_digest request.source_digest
    && str_eq bindings.policy_digest request.policy_digest

unfoldable pub rebuild_matches_request : RebuildEvidence → AdmissionRequest → Bool
rebuild_matches_request rebuild request =
    str_eq rebuild.artifact_digest request.artifact_digest
    && str_eq rebuild.source_digest request.source_digest

unfoldable pub risk_matches_request : RiskEvidence → AdmissionRequest → Bool
risk_matches_request risk request =
    str_eq risk.artifact_digest request.artifact_digest
    && str_eq risk.source_digest request.source_digest
    && str_eq risk.policy_digest request.policy_digest

-- `validate_rebuild` on the evidence of the request.
unfoldable pub validate_rebuild :
    Option RebuildEvidence → AdmissionRequest → Checked RebuildEvidence
unfolding reject rebuild_matches_request
validate_rebuild none request = err (outcome quarantine missing_rebuild_evidence)
validate_rebuild (some rebuild) request =
    if not (rebuild_matches_request rebuild request)
    then err (reject rebuild_identity_mismatch)
    else if not rebuild.matched
        || not (str_eq rebuild.rebuilt_artifact_digest request.artifact_digest)
    then err (reject rebuild_artifact_mismatch)
    else ok rebuild

unfoldable pub validate_risk : Option RiskEvidence → AdmissionRequest → Checked RiskEvidence
unfolding reject risk_matches_request
validate_risk none request = err (outcome quarantine missing_risk_evidence)
validate_risk (some risk) request =
    if not (risk_matches_request risk request) then err (reject risk_identity_mismatch) else ok risk

abbrev is_approved : ApprovalDecision → Bool
is_approved approved = true
is_approved refused = false

unfoldable pub evaluate_approval :
    Option ApprovalEvidence → AdmissionRequest → RebuildEvidence → RiskEvidence → AdmissionOutcome
unfolding reject bindings_match_request
evaluate_approval none request rebuild risk = outcome await_approval missing_approval
evaluate_approval (some approval) request rebuild risk =
    if not (bindings_match_request approval.bindings request)
      || not (str_eq approval.bindings.risk_receipt_digest risk.risk_receipt_digest)
      || not (str_eq approval.bindings.rebuild_receipt_digest rebuild.receipt_digest)
    then reject approval_identity_mismatch
    else if not (is_approved approval.decision)
    then reject approval_rejected
    else outcome admit all_required_evidence_bound

-- The `match` on the decision of the risk evidence.
unfoldable pub settle :
    RiskDecision → AdmissionRequest → RebuildEvidence → RiskEvidence → AdmissionOutcome
unfolding reject evaluate_approval
settle reject_risk request rebuild risk = reject risk_rejected
settle require_approval request rebuild risk =
    evaluate_approval request.approval request rebuild risk
settle clear request rebuild risk = outcome admit all_required_evidence_bound

abbrev pub is_open : IntakeState → Bool
is_open quarantined = true
is_open evaluated = true
is_open pending_approval = true
is_open _ = false

unfoldable pub evaluate : AdmissionRequest → AdmissionOutcome
unfolding reject validate_rebuild validate_risk settle
evaluate request = if not (is_open request.current_state) then reject invalid_state else do
  rebuild ← validate_rebuild request.rebuild request
  risk ← validate_risk request.risk request
  settle risk.decision request rebuild risk
