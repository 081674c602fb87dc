-- ===== src/PackageIntake/Outcomes.antt =====
-- The quarantine of src/package_intake.rs.
use zed_api_server_rs.Prelude.{◌≡◌, ◌≢◌, refl, ◌⊎◌, inl, inr, ◌↔◌, true, none, arith}
use zed_api_server_rs.PackageIntake.{
  RiskDecision, RebuildEvidence, RiskEvidence, AdmissionRequest, quarantine, evaluate, is_open, ok,
  validate_rebuild, validate_risk, settle,
}
use zed_api_server_rs.PackageIntake.Evidence.{IsRebuilt, rebuild_iff, rebuild-err, risk-err}
use zed_api_server_rs.PackageIntake.Admission.{evaluate-stages, evaluate_lem}

settle-ne-quarantine :
    (d : RiskDecision) (request : AdmissionRequest) (rebuild : RebuildEvidence)
    (risk : RiskEvidence)
    → (settle d request rebuild risk).decision ≢ quarantine
unfolding settle
settle-ne-quarantine d request rebuild risk h = ground arith

-- What a quarantined package lacks.
abbrev pub LacksEvidence : AdmissionRequest → Type 0
LacksEvidence request =
    (request.rebuild ≡ none)
    ⊎ ((rebuild : RebuildEvidence) × IsRebuilt request rebuild × (request.risk ≡ none))

quarantine-Lacks :
    (request : AdmissionRequest)
    → is_open request.current_state ≡ true
    → (evaluate request).decision ≡ quarantine
    → LacksEvidence request
quarantine-Lacks request undecided h = elim (evaluate-stages request undecided) [
  | inl (found, e, same) ↦ inl (ground (arith, rebuild-err request request.rebuild found e))
  | inr (inl (rebuild, found, e, d, same)) ↦ inr (
    rebuild,
    (rebuild_iff request request.rebuild rebuild refl).0 e,
    ground (arith, risk-err request request.risk found d),
  )
  | inr (inr (rebuild, risk, e, d, same)) ↦
      absurd (settle-ne-quarantine risk.decision request rebuild risk (rw same at h))
]

rebuilt_ok :
    (request : AdmissionRequest) (rebuild : RebuildEvidence)
    → IsRebuilt request rebuild
    → validate_rebuild request.rebuild request ≡ ok rebuild
rebuilt_ok request rebuild b = (rebuild_iff request request.rebuild rebuild refl).1 b

Lacks-quarantine :
    (request : AdmissionRequest)
    → is_open request.current_state ≡ true
    → LacksEvidence request
    → (evaluate request).decision ≡ quarantine
unfolding validate_risk validate_rebuild
Lacks-quarantine request undecided (inl e) = rw (evaluate_lem request undecided, e)
Lacks-quarantine request undecided (inr (rebuild, b, e)) =
    rw (evaluate_lem request undecided, rebuilt_ok request rebuild b, e)

-- A package whose intake is open is quarantined exactly if evidence is missing: that of a rebuild,
-- or, once a rebuild reproduced the artifact, that of a risk assessment.
pub evaluate-quarantine_iff :
    (request : AdmissionRequest)
    → is_open request.current_state ≡ true
    → ((evaluate request).decision ≡ quarantine) ↔ LacksEvidence request
evaluate-quarantine_iff request undecided =
    (quarantine-Lacks request undecided, Lacks-quarantine request undecided)
