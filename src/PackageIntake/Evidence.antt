-- ===== src/PackageIntake/Evidence.antt =====
-- What each check of src/package_intake.rs says of the evidence it passes.
use zed_api_server_rs.Prelude.{◌≡◌, ◌⊎◌, ◌↔◌, true, Option, none, some, arith}
use zed_api_server_rs.Text.Equality.{str_eq_iff}
use zed_api_server_rs.PackageIntake.{
  approved, RebuildEvidence, RiskEvidence, ApprovalEvidence, AdmissionRequest, quarantine,
  reject_package, admit, AdmissionOutcome, ok, err, validate_rebuild, validate_risk,
  evaluate_approval,
}

-- The rebuild evidence is about this artifact and source, and reproduced the artifact.
pub record IsRebuilt (request : AdmissionRequest) (rebuild : RebuildEvidence) : Type 0 where
  pub given : request.rebuild ≡ some rebuild
  pub same_artifact : rebuild.artifact_digest ≡ request.artifact_digest
  pub same_source : rebuild.source_digest ≡ request.source_digest
  pub matched : rebuild.matched ≡ true
  pub reproduced : rebuild.rebuilt_artifact_digest ≡ request.artifact_digest

-- The risk evidence is about this artifact, source and policy.
pub record IsAssessed (request : AdmissionRequest) (risk : RiskEvidence) : Type 0 where
  pub given : request.risk ≡ some risk
  pub same_artifact : risk.artifact_digest ≡ request.artifact_digest
  pub same_source : risk.source_digest ≡ request.source_digest
  pub same_policy : risk.policy_digest ≡ request.policy_digest

-- An approval bound to this request and to both receipts.
pub record IsApproved (request : AdmissionRequest) (rebuild : RebuildEvidence) (risk : RiskEvidence)
    (approval : ApprovalEvidence) : Type 0 where
  pub given : request.approval ≡ some approval
  pub same_artifact : approval.bindings.artifact_digest ≡ request.artifact_digest
  pub same_source : approval.bindings.source_digest ≡ request.source_digest
  pub same_policy : approval.bindings.policy_digest ≡ request.policy_digest
  pub same_risk : approval.bindings.risk_receipt_digest ≡ risk.risk_receipt_digest
  pub same_rebuild : approval.bindings.rebuild_receipt_digest ≡ rebuild.receipt_digest
  pub approving : approval.decision ≡ approved

-- Where the evidence is given, each check is an equation of digests.
module _ (request : AdmissionRequest) where
  pub rebuild_iff :
      (o : Option RebuildEvidence) (rebuild : RebuildEvidence)
      → request.rebuild ≡ o
      → (validate_rebuild o request ≡ ok rebuild) ↔ IsRebuilt request rebuild
  unfolding validate_rebuild
  rebuild_iff none rebuild e = ((λ h. cc), (λ b. cc (b.given, e)))
  rebuild_iff (some given) rebuild e = (
    (λ h. ground (
      arith,
      str_eq_iff given.artifact_digest request.artifact_digest,
      str_eq_iff given.source_digest request.source_digest,
      str_eq_iff given.rebuilt_artifact_digest request.artifact_digest,
    )),
    (λ b. ground (
      arith,
      str_eq_iff given.artifact_digest request.artifact_digest,
      str_eq_iff given.source_digest request.source_digest,
      str_eq_iff given.rebuilt_artifact_digest request.artifact_digest,
    )),
  )

  pub risk_iff :
      (o : Option RiskEvidence) (risk : RiskEvidence)
      → request.risk ≡ o
      → (validate_risk o request ≡ ok risk) ↔ IsAssessed request risk
  unfolding validate_risk
  risk_iff none risk e = ((λ h. cc), (λ b. cc (b.given, e)))
  risk_iff (some given) risk e = (
    (λ h. ground (
      arith,
      str_eq_iff given.artifact_digest request.artifact_digest,
      str_eq_iff given.source_digest request.source_digest,
      str_eq_iff given.policy_digest request.policy_digest,
    )),
    (λ b. ground (
      arith,
      str_eq_iff given.artifact_digest request.artifact_digest,
      str_eq_iff given.source_digest request.source_digest,
      str_eq_iff given.policy_digest request.policy_digest,
    )),
  )

  pub approval_iff :
      (o : Option ApprovalEvidence) (rebuild : RebuildEvidence) (risk : RiskEvidence)
      → request.approval ≡ o
      → ((evaluate_approval o request rebuild risk).decision ≡ admit)
        ↔ ((approval : ApprovalEvidence) × IsApproved request rebuild risk approval)
  unfolding evaluate_approval
  approval_iff none rebuild risk e = ((λ h. cc), (λ a. cc (a.1.given, e)))
  approval_iff (some given) rebuild risk e = (
    (λ h. (
      given,
      ground (
        arith,
        str_eq_iff given.bindings.artifact_digest request.artifact_digest,
        str_eq_iff given.bindings.source_digest request.source_digest,
        str_eq_iff given.bindings.policy_digest request.policy_digest,
        str_eq_iff given.bindings.risk_receipt_digest risk.risk_receipt_digest,
        str_eq_iff given.bindings.rebuild_receipt_digest rebuild.receipt_digest,
      ),
    )),
    (λ (approval, a). ground (
      arith,
      str_eq_iff given.bindings.artifact_digest request.artifact_digest,
      str_eq_iff given.bindings.source_digest request.source_digest,
      str_eq_iff given.bindings.policy_digest request.policy_digest,
      str_eq_iff given.bindings.risk_receipt_digest risk.risk_receipt_digest,
      str_eq_iff given.bindings.rebuild_receipt_digest rebuild.receipt_digest,
    )),
  )

  -- What stops a request before the risk decision is never an admission.
  pub rebuild-err :
      (o : Option RebuildEvidence) (found : AdmissionOutcome)
      → validate_rebuild o request ≡ err found
      → ((found.decision ≡ quarantine) × (o ≡ none)) ⊎ (found.decision ≡ reject_package)
  unfolding validate_rebuild
  rebuild-err none found h = ground arith
  rebuild-err (some given) found h = ground arith

  pub risk-err :
      (o : Option RiskEvidence) (found : AdmissionOutcome)
      → validate_risk o request ≡ err found
      → ((found.decision ≡ quarantine) × (o ≡ none)) ⊎ (found.decision ≡ reject_package)
  unfolding validate_risk
  risk-err none found h = ground arith
  risk-err (some given) found h = ground arith
