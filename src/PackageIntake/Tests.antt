-- ===== src/PackageIntake/Tests.antt =====
-- The theorems on the evidence of the source's own tests.
use zed_api_server_rs.Prelude.{◌≡◌, refl, ◌↔◌, true, none, some}
use zed_api_server_rs.Text.{str, str_eq}
use zed_api_server_rs.PackageIntake.{
  evaluated, RiskDecision, clear, require_approval, approved, RebuildEvidence, RiskEvidence,
  ApprovalEvidence, AdmissionRequest, await_approval, admit, evaluate,
}
use zed_api_server_rs.PackageIntake.Admission.{IsAdmissible, evaluate-admit_iff}

abbrev rebuild : RebuildEvidence
rebuild = record {
  receipt_digest = str "rebuild-receipt";
  artifact_digest = str "artifact";
  source_digest = str "source";
  rebuilt_artifact_digest = str "artifact";
  declared_file_manifest_digest = str "manifest";
  dependency_lock_digest = str "lock";
  matched = true;
}

abbrev risk : RiskDecision → RiskEvidence
risk decision = record {
  artifact_digest = str "artifact";
  source_digest = str "source";
  policy_digest = str "policy";
  risk_receipt_digest = str "risk-receipt";
  decision = decision;
}

abbrev approval : ApprovalEvidence
approval = record {
  bindings = record {
    artifact_digest = str "artifact";
    source_digest = str "source";
    policy_digest = str "policy";
    risk_receipt_digest = str "risk-receipt";
    rebuild_receipt_digest = str "rebuild-receipt";
  };
  decision = approved;
}

abbrev request : RiskDecision → AdmissionRequest
request decision = record {
  current_state = evaluated;
  artifact_digest = str "artifact";
  source_digest = str "source";
  policy_digest = str "policy";
  rebuild = some rebuild;
  risk = some (risk decision);
  approval = none;
}

clear_admits : (evaluate (request clear)).decision ≡ admit
unfolding evaluate str str_eq
clear_admits = refl

approval_admits :
    (evaluate (record (request require_approval) { approval = some approval })).decision ≡ admit
unfolding evaluate str str_eq
approval_admits = refl

no_approval_waits : (evaluate (request require_approval)).decision ≡ await_approval
unfolding evaluate str str_eq
no_approval_waits = refl

evaluate-admit_iff_example :
    ((evaluate (request clear)).decision ≡ admit) ↔ IsAdmissible (request clear)
evaluate-admit_iff_example = evaluate-admit_iff (request clear)
