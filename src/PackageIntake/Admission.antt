-- ===== src/PackageIntake/Admission.antt =====
-- The stages of `evaluate` of src/package_intake.rs, and its admissions.
use zed_api_server_rs.Prelude.{◌≡◌, refl, ◌⊎◌, inl, inr, ◌↔◌, true, false, arith, Bool-cases}
use zed_api_server_rs.PackageIntake.{
  RiskDecision, clear, require_approval, reject_risk, RebuildEvidence, RiskEvidence,
  ApprovalEvidence, AdmissionRequest, admit, AdmissionOutcome, evaluate, is_open, ok, err,
  validate_rebuild, validate_risk, settle, Checked, reject, invalid_state, ◌>>=◌,
}
use zed_api_server_rs.PackageIntake.Evidence.{
  IsRebuilt, IsAssessed, IsApproved, rebuild_iff, risk_iff, approval_iff, rebuild-err, risk-err,
}

Checked-cases :
    {A : Type 0} (c : Checked A) → ((a : A) × (c ≡ ok a)) ⊎ ((o : AdmissionOutcome) × (c ≡ err o))
Checked-cases (ok a) = inl (a, refl)
Checked-cases (err o) = inr (o, refl)

-- Everything that an admission rests on.
pub record IsAdmissible (request : AdmissionRequest) : Type 0 where
  pub undecided : is_open request.current_state ≡ true
  pub rebuild : RebuildEvidence
  pub rebuilt : IsRebuilt request rebuild
  pub risk : RiskEvidence
  pub assessed : IsAssessed request risk
  pub settled :
      (risk.decision ≡ clear)
      ⊎ ((risk.decision ≡ require_approval)
          × ((approval : ApprovalEvidence) × IsApproved request rebuild risk approval))

settle_iff :
    (request : AdmissionRequest) (rebuild : RebuildEvidence) (risk : RiskEvidence)
    (d : RiskDecision)
    → ((settle d request rebuild risk).decision ≡ admit) ↔ (
        (d ≡ clear)
        ⊎ ((d ≡ require_approval)
            × ((approval : ApprovalEvidence) × IsApproved request rebuild risk approval)))
unfolding settle
settle_iff request rebuild risk clear = ((λ h. inl refl), (λ h. refl))
settle_iff request rebuild risk require_approval =
    let (to, from) = approval_iff request request.approval rebuild risk refl in
    ((λ h. inr (refl, to h)), elim [ inl e ↦ cc | inr (_, a) ↦ from a ])
settle_iff request rebuild risk reject_risk = ((λ h. cc), elim [ inl e ↦ cc | inr (e, _) ↦ cc ])

pub evaluate_lem :
    (request : AdmissionRequest)
    → is_open request.current_state ≡ true
    → evaluate request ≡ (
        validate_rebuild request.rebuild request >>= λ rebuild.
        validate_risk request.risk request >>= λ risk. settle risk.decision request rebuild risk)
unfolding evaluate
evaluate_lem request undecided = rw undecided

pub evaluate-closed :
    (request : AdmissionRequest)
    → is_open request.current_state ≡ false
    → evaluate request ≡ reject invalid_state
unfolding evaluate
evaluate-closed request decided = rw decided

module _ (request : AdmissionRequest) (undecided : is_open request.current_state ≡ true) where
  -- The three ways through the checks.
  pub evaluate-stages :
      ((found : AdmissionOutcome) × (validate_rebuild request.rebuild request ≡ err found)
        × (evaluate request ≡ found))
      ⊎ ((rebuild : RebuildEvidence) × (found : AdmissionOutcome) × (validate_rebuild
              request.rebuild request
            ≡ ok rebuild)
          × (validate_risk request.risk request ≡ err found)
          × (evaluate request ≡ found))
      ⊎ ((rebuild : RebuildEvidence) × (risk : RiskEvidence) × (validate_rebuild request.rebuild
              request
            ≡ ok rebuild)
          × (validate_risk request.risk request ≡ ok risk)
          × (evaluate request ≡ settle risk.decision request rebuild risk))
  evaluate-stages = elim (Checked-cases (validate_rebuild request.rebuild request)) [
    | inr (found, e) ↦ inl (found, e, rw (evaluate_lem request undecided, e))
    | inl (rebuild, e) ↦ elim (Checked-cases (validate_risk request.risk request)) [
      | inr (found, d) ↦ inr (inl (rebuild, found, e, d, rw (evaluate_lem request undecided, e, d)))
      | inl (risk, d) ↦ inr (inr (rebuild, risk, e, d, rw (evaluate_lem request undecided, e, d)))
    ]
  ]

  admit-IsAdmissible : (evaluate request).decision ≡ admit → IsAdmissible request
  admit-IsAdmissible h = elim evaluate-stages [
    | inl (found, e, same) ↦ absurd (ground (arith, rebuild-err request request.rebuild found e))
    | inr (inl (rebuild, found, e, d, same)) ↦
        absurd (ground (arith, risk-err request request.risk found d))
    | inr (inr (rebuild, risk, e, d, same)) ↦ record {
      undecided = undecided;
      rebuild = rebuild;
      rebuilt = (rebuild_iff request request.rebuild rebuild refl).0 e;
      risk = risk;
      assessed = (risk_iff request request.risk risk refl).0 d;
      settled = (settle_iff request rebuild risk risk.decision).0 (rw same at h);
    }
  ]

IsAdmissible-admit :
    (request : AdmissionRequest) → IsAdmissible request → (evaluate request).decision ≡ admit
IsAdmissible-admit request a =
    rw
      (
        evaluate_lem request a.undecided,
        (rebuild_iff request request.rebuild a.rebuild refl).1 a.rebuilt,
        (risk_iff request request.risk a.risk refl).1 a.assessed,
      )
      ((settle_iff request a.rebuild a.risk a.risk.decision).1 a.settled)

-- A package is admitted for publication exactly if its intake is still open, a rebuild of this
-- artifact and source reproduced the artifact, a risk assessment is about this artifact, source and
-- policy, and either that assessment is clear or it asks for approval and an approval is bound to
-- this artifact, source, policy and to both receipts.
pub evaluate-admit_iff :
    (request : AdmissionRequest) → ((evaluate request).decision ≡ admit) ↔ IsAdmissible request
unfolding reject
evaluate-admit_iff request = (
  (λ h. elim (Bool-cases (is_open request.current_state)) [
    | inl undecided ↦ admit-IsAdmissible request undecided h
    | inr decided ↦ cc (rw (evaluate-closed request decided) at h)
  ]),
  IsAdmissible-admit request,
)
