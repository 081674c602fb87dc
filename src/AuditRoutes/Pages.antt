-- ===== src/AuditRoutes/Pages.antt =====
-- src/routes/audit.rs: what the listing route answers, and to whom.
use mathlib.Core.List.{Memᴰ, Perm}
use mathlib.Core.List.Perm
use zed_api_server_rs.Prelude.{
  ℕ, ◌≤◌, ◌≡◌, refl, sym, ap, subst, ◌∙◌, ◌⊎◌, inl, inr, Bool, true, false, Option, none, some,
  List, arith, take, map, length, length-take-le, All, All-take, ℤ, lt_ℤ, not, ◌++◌, ◌==◌, ==_iff,
  &&_parts, &&_intro, ◌↔◌, append_assoc, All-append, drop,
}
use zed_api_server_rs.Text.{Str}
use zed_api_server_rs.Audit.{AuditRow, Token}
use zed_api_server_rs.Access.{
  ApiResult, ok, err, ◌>>=◌, parse, can_manage, cannot_manage, authorize_manage, require_token,
}
use zed_api_server_rs.Text.Equality.{str_eq_iff}
use zed_api_server_rs.Access.Credentials.{Vetted, require_token-Vetted}
use zed_api_server_rs.Access.Roles.{MayAct, Judged, authorize-Judged}
use zed_api_server_rs.Yank.{Database, OrgRow, find_org}
use zed_api_server_rs.Yank.Lookups.{bind_ok, find_org_sound, ok-inj}
use zed_api_server_rs.AuditRoutes.{Faults, all_rows}
use zed_api_server_rs.AuditRoutes.Verdict.{all_rows_ok}
use zed_api_server_rs.AuditRoutes.Listing.{
  AuditQuery, AuditLogResponse, limit_or, selects, has_action, is_before, filter_rows, order_newest,
  page, to_entry, known_action, get_audit_log,
}
use zed_api_server_rs.AuditRoutes.Newest.{
  NotOlder, Descends, All-mono, order_newest-Descends, All-order_newest, All-filter_rows,
  Descends-take, order_newest-Perm, dropped, filter_rows-Perm, take-drop, drop-Behind,
}

-- How many rows a page has at most: 100 when the query sets no limit, and otherwise the limit, put
-- between 1 and 1000.
abbrev pub IsLimit : Option ℕ → ℕ → Type 0
IsLimit none most = most ≡ 100
IsLimit (some limit) most =
    (1 ≤ most) × (most ≤ 1000) × ((limit ≤ most) ⊎ (most ≡ 1000)) × ((most ≤ limit) ⊎ (most ≡ 1))

limit_or-IsLimit : (limit : Option ℕ) → IsLimit limit (limit_or limit)
limit_or-IsLimit none = omega arith
limit_or-IsLimit (some n) = ground arith

-- What the query selects of an organisation's rows.
pub record IsSelected (org_id : ℕ) (query : AuditQuery) (row : AuditRow) : Type 0 where
  pub own : row.org_id ≡ org_id
  pub of_action : (action : Str) → query.action ≡ some action → row.action ≡ action
  pub earlier : (before : ℤ) → query.before ≡ some before → lt_ℤ row.seq before ≡ true

has_action_iff :
    (o : Option Str) (row : AuditRow)
    → (has_action o row ≡ true) ↔ ((action : Str) → o ≡ some action → row.action ≡ action)
has_action_iff none row = ((λ h action e. cc), (λ h. refl))
has_action_iff (some a) row = (
  (λ h action e. let same : a ≡ action = cc in (str_eq_iff row.action a).0 h ∙ same),
  (λ h. (str_eq_iff row.action a).1 (h a refl)),
)

is_before_iff :
    (o : Option ℤ) (row : AuditRow)
    → (is_before o row ≡ true) ↔ ((before : ℤ) → o ≡ some before → lt_ℤ row.seq before ≡ true)
is_before_iff none row = ((λ h before e. cc), (λ h. refl))
is_before_iff (some b) row = (
  (λ h before e. let same : b ≡ before = cc in subst (λ t. lt_ℤ row.seq t ≡ true) same h),
  (λ h. h b refl),
)

selects_iff :
    (org_id : ℕ) (query : AuditQuery) (row : AuditRow)
    → (selects org_id query row ≡ true) ↔ IsSelected org_id query row
selects_iff org_id query row = (
  (λ h.
      let (a, bc) = &&_parts (row.org_id == org_id) _ h in
      let (b, c) = &&_parts (has_action query.action row) _ bc in
      record {
        own = (==_iff row.org_id org_id).0 a;
        of_action = (has_action_iff query.action row).0 b;
        earlier = (is_before_iff query.before row).0 c;
      }),
  (λ s. &&_intro (row.org_id == org_id) _ ((==_iff row.org_id org_id).1 s.own) (
      &&_intro (has_action query.action row) _ ((has_action_iff query.action row).1 s.of_action)
        ((is_before_iff query.before row).1 s.earlier))),
)

-- A page of the log of an organisation: rows of the log, each selected by the query, at most as many
-- as its limit says, newest first. Every other row of the log is not selected, or the page is full
-- and no row on it is older.
pub record IsPage (org_id : ℕ) (query : AuditQuery) (log rows : List AuditRow) : Type 0 where
  pub most : ℕ
  pub limited : IsLimit query.limit most
  pub few : length rows ≤ most
  pub selected : All (IsSelected org_id query) rows
  pub descends : Descends rows
  pub others : List AuditRow
  pub of_log : Perm (rows ++ others) log
  pub left_out :
      All
        (λ other.
          (IsSelected org_id query other → ⊥)
          ⊎ ((length rows ≡ most) × All (λ row. NotOlder row other) rows))
        others

not_selected :
    (org_id : ℕ) (query : AuditQuery) (row : AuditRow)
    → not (selects org_id query row) ≡ true
    → IsSelected org_id query row
    → ⊥
not_selected org_id query row h s =
    opposite (selects org_id query row) h ((selects_iff org_id query row).1 s)
  where
    opposite : (b : Bool) → not b ≡ true → b ≡ true → ⊥
    opposite true h k = cc
    opposite false h k = cc

module _ (org_id : ℕ) (query : AuditQuery) (log : List AuditRow) where
  page-IsPage : IsPage org_id query log (page org_id query log)
  page-IsPage =
      let found = filter_rows (selects org_id query) log in
      let ordered = order_newest found in
      let n = limit_or query.limit in
      let unselected = dropped (selects org_id query) log in
      record {
        most = n;
        limited = limit_or-IsLimit query.limit;
        few = length-take-le n ordered;
        selected =
            All-mono (take n ordered) (λ row. (selects_iff org_id query row).0)
              (All-take (λ row. selects org_id query row ≡ true) n ordered
                (All-order_newest (λ row. selects org_id query row ≡ true) found
                  (All-filter_rows (selects org_id query) log)));
        descends = Descends-take n ordered (order_newest-Descends found);
        others = drop n ordered ++ unselected;
        of_log =
            subst (λ t. Perm t log)
              (ap (λ t. t ++ unselected) (sym (take-drop n ordered))
                ∙ append_assoc (take n ordered) (drop n ordered) unselected)
              (Perm.trans (Perm.append_right unselected (order_newest-Perm found))
                (filter_rows-Perm (selects org_id query) log));
        left_out =
            All-append _ (drop n ordered) unselected
              (All-mono (drop n ordered) (λ row behind. inr behind)
                (drop-Behind n ordered (order_newest-Descends found)))
              (All-mono unselected (λ row h. inl (not_selected org_id query row h))
                (All-filter_rows (λ row. not (selects org_id query row)) log));
      }

module _ (hash_token : Str → Str) (parse_action : Str → Option Str) (to_rfc3339 : ℕ → Str) where
  get_audit_log_lem :
      (faults : Faults) (db : Database) (now : ℕ) (org_slug : Str) (query : AuditQuery)
      (header : Option Str)
      → get_audit_log hash_token parse_action to_rfc3339 faults db now org_slug query header ≡ (do
        token ← require_token hash_token now faults.find_token db.tokens header
        org_row ← find_org faults.find_org db.orgs org_slug
        authorized ← authorize_manage token.org_id (parse token.role) org_row.id
        known ← known_action hash_token parse_action to_rfc3339 query.action
        rows ← all_rows faults.find_rows (page org_row.id query db.audit_log)
        ok (record {
          org = org_slug;
          entries = map (to_entry hash_token parse_action to_rfc3339) rows;
        }))
  unfolding get_audit_log
  get_audit_log_lem faults db now org_slug query header = refl

  unit_then :
      (m : ApiResult Unit) (r : ApiResult AuditLogResponse) (a : AuditLogResponse)
      → (m >>= (λ u. r)) ≡ ok a
      → (m ≡ ok tt) × (r ≡ ok a)
  unit_then (ok u) r a h = (refl, h)
  unit_then (err e) r a h = cc

  -- The log is listed only to a stored token whose hash is that of the bearer credential, that is
  -- neither revoked nor expired, and that may manage the organisation of the path. The entries are
  -- those of a page of its log: of the rows that the query selects the newest, newest first, at most
  -- 100 of them when the query sets no limit, and otherwise at most its limit, put between 1 and 1000.
  pub get_audit_log-IsPage :
      (faults : Faults) (db : Database) (now : ℕ) (org_slug : Str) (query : AuditQuery)
      (header : Option Str) (answer : AuditLogResponse)
      → get_audit_log hash_token parse_action to_rfc3339 faults db now org_slug query header
        ≡ ok answer
      → (token : Token) × (org_row : OrgRow) × (rows : List AuditRow) × Vetted hash_token now
          faults.find_token db.tokens header
          (ok token)
        × Memᴰ org_row db.orgs
        × (org_row.slug ≡ org_slug)
        × MayAct can_manage token.org_id (parse token.role) org_row.id
        × (answer.entries ≡ map (to_entry hash_token parse_action to_rfc3339) rows)
        × IsPage org_row.id query db.audit_log rows
  get_audit_log-IsPage faults db now org_slug query header answer h =
      let (token, e1, h1) =
        bind_ok (require_token hash_token now faults.find_token db.tokens header) _ answer
          (sym (get_audit_log_lem faults db now org_slug query header) ∙ h) in
      let (org_row, e2, h2) = bind_ok (find_org faults.find_org db.orgs org_slug) _ answer h1 in
      let (e3, h3) =
        unit_then (authorize_manage token.org_id (parse token.role) org_row.id) _ answer h2 in
      let (e4, h4) =
        unit_then (known_action hash_token parse_action to_rfc3339 query.action) _ answer h3 in
      let (rows, e5, h5) =
        bind_ok (all_rows faults.find_rows (page org_row.id query db.audit_log))
          (λ rows. ok (record {
            org = org_slug;
            entries = map (to_entry hash_token parse_action to_rfc3339) rows;
          }))
          answer h4 in
      let (known, named) = find_org_sound faults.find_org db.orgs org_slug org_row e2 in
      let may =
        subst (Judged can_manage cannot_manage token.org_id (parse token.role) org_row.id) e3
          (authorize-Judged token.org_id (parse token.role) org_row.id).1 in
      let vetted =
        subst (Vetted hash_token now faults.find_token db.tokens header) e1
          (require_token-Vetted hash_token now faults.find_token db.tokens header) in
      let read = all_rows_ok faults.find_rows (page org_row.id query db.audit_log) rows e5 in
      (
        token,
        org_row,
        rows,
        vetted,
        known,
        named,
        may,
        ap (λ (a : AuditLogResponse). a.entries) (sym (ok-inj h5)),
        subst (IsPage org_row.id query db.audit_log) read
            (page-IsPage org_row.id query db.audit_log),
      )
