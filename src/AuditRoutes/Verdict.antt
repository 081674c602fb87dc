-- ===== src/AuditRoutes/Verdict.antt =====
-- What the verification route answers, and to whom.
use mathlib.Core.List.{Memᴰ}
use zed_api_server_rs.Prelude.{
  ℕ, zero, suc, ◌≡◌, refl, sym, ap, subst, ◌∙◌, Bool, true, false, Option, none, some, List, [],
  ◌∷◌, arith, take, ℤ, succ, lt_ℤ, if◌then◌else◌,
}
use zed_api_server_rs.Text.{Str}
use zed_api_server_rs.Audit.{AuditRow, ChainLibrary, Token, of_org, verify_chain, chained}
use zed_api_server_rs.Audit.Links.{Linked-verify_chain, intact_report}
use zed_api_server_rs.Audit.Log.{Grows, Grows-Linked}
use zed_api_server_rs.Audit.Append.{IsLog}
use zed_api_server_rs.Access.{
  ok, ◌>>=◌, parse, can_manage, cannot_manage, authorize_manage, require_token,
}
use zed_api_server_rs.Access.Roles.{MayAct, Judged, authorize-Judged}
use zed_api_server_rs.Yank.{Database, OrgRow, find_org}
use zed_api_server_rs.Yank.Lookups.{bind_ok, find_org_sound, ok-inj}
use zed_api_server_rs.AuditRoutes.{
  Faults, AuditIntegrityResponse, response, verify_audit_log, order_by_seq, insert_by_seq, all_rows,
  max_verify_rows,
}

pub all_rows_ok :
    (fails : Bool) (rows found : List AuditRow) → all_rows fails rows ≡ ok found → rows ≡ found
all_rows_ok true rows found h = cc
all_rows_ok false rows found h = ok-inj h

module _ (hash_token : Str → Str) (lib : ChainLibrary) where
  verify_audit_log_lem :
      (faults : Faults) (db : Database) (now : ℕ) (org_slug : Str) (header : Option Str)
      → verify_audit_log hash_token lib faults db now org_slug header ≡ (
          require_token hash_token now faults.find_token db.tokens header >>= (λ token.
            find_org faults.find_org db.orgs org_slug >>= (λ org_row.
              authorize_manage token.org_id (parse token.role) org_row.id >>= (λ authorized.
                all_rows faults.find_rows
                  (take max_verify_rows (order_by_seq (of_org org_row.id db.audit_log)))
                >>= (λ rows. ok (response hash_token lib org_slug (verify_chain lib rows)))))))
  unfolding verify_audit_log
  verify_audit_log_lem faults db now org_slug header = refl

  -- A log is in the order of its positions.
  order_by_seq-Grows :
      (before : Option AuditRow) (rows : List AuditRow)
      → Grows lib before rows
      → order_by_seq rows ≡ rows
  order_by_seq-Grows before [] h = refl
  order_by_seq-Grows before (row ∷ []) h = refl
  order_by_seq-Grows before (row ∷ next ∷ rows) (s, l, (s', l', h)) =
      ap (insert_by_seq row) (order_by_seq-Grows (some row) (next ∷ rows) (s', l', h))
      ∙ ap (λ b. if b then next ∷ insert_by_seq row rows else row ∷ next ∷ rows)
          (ascending row.seq next.seq s')
    where
      ascending : (s s' : ℤ) → s' ≡ succ s → lt_ℤ s' s ≡ false
      ascending s s' e = ground arith

  Grows-take :
      (n : ℕ) (before : Option AuditRow) (rows : List AuditRow)
      → Grows lib before rows
      → Grows lib before (take n rows)
  Grows-take zero before rows h = tt
  Grows-take (suc n) before [] h = tt
  Grows-take (suc n) before (row ∷ rows) (s, l, h) = (s, l, Grows-take n (some row) rows h)

  -- The verification is answered only to an accepted token that may manage the organisation, and while the
  -- audit table is a log, as the server's own appends keep it, the answer is that the chain is intact,
  -- for the first 50000 rows by position.
  pub verify_audit_log-Intact :
      (faults : Faults) (db : Database) (now : ℕ) (org_slug : Str) (header : Option Str)
      (answer : AuditIntegrityResponse)
      → IsLog lib db.audit_log
      → verify_audit_log hash_token lib faults db now org_slug header ≡ ok answer
      → (token : Token) × (org_row : OrgRow) × (require_token hash_token now faults.find_token
            db.tokens header
          ≡ ok token)
        × Memᴰ org_row db.orgs
        × (org_row.slug ≡ org_slug)
        × MayAct can_manage token.org_id (parse token.role) org_row.id
        × (answer
            ≡ response hash_token lib org_slug (
                intact_report lib
                  (chained (take max_verify_rows (of_org org_row.id db.audit_log)))))
  verify_audit_log-Intact faults db now org_slug header answer log h =
      let (token, e1, h1) =
        bind_ok (require_token hash_token now faults.find_token db.tokens header) _ answer
          (sym (verify_audit_log_lem faults db now org_slug header) ∙ h) in
      let (org_row, e2, h2) = bind_ok (find_org faults.find_org db.orgs org_slug) _ answer h1 in
      let (authorized, e3, h3) =
        bind_ok (authorize_manage token.org_id (parse token.role) org_row.id) _ answer h2 in
      let own = of_org org_row.id db.audit_log in
      let (rows, e4, h4) =
        bind_ok (all_rows faults.find_rows (take max_verify_rows (order_by_seq own)))
          (λ rows. ok (response hash_token lib org_slug (verify_chain lib rows))) answer h3 in
      let (known, named) = find_org_sound faults.find_org db.orgs org_slug org_row e2 in
      let may =
        subst (Judged can_manage cannot_manage token.org_id (parse token.role) org_row.id) e3
          (authorize-Judged token.org_id (parse token.role) org_row.id).1 in
      let read : rows ≡ take max_verify_rows own =
        sym (all_rows_ok faults.find_rows (take max_verify_rows (order_by_seq own)) rows e4)
        ∙ ap (take max_verify_rows) (order_by_seq-Grows none own (log org_row.id)) in
      let report = Linked-verify_chain lib (take max_verify_rows own) (
        Grows-Linked lib (take max_verify_rows own) none 0 refl
          (Grows-take max_verify_rows none own (log org_row.id))) in
      (
        token,
        org_row,
        e1,
        known,
        named,
        may,
        sym (ok-inj h4)
            ∙ ap (response hash_token lib org_slug) (ap (verify_chain lib) read ∙ report),
      )
