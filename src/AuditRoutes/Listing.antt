-- ===== src/AuditRoutes/Listing.antt =====
-- src/routes/audit.rs: the route that lists an organisation's audit log, newest first.
use zed_api_server_rs.Prelude.{
  ℕ, Bool, true, ◌&&◌, ◌||◌, Option, none, some, List, [], ◌∷◌, ◌++◌, map, if◌then◌else◌, take,
  ◌==◌, ltb, ℤ, lt_ℤ, eq_ℤ,
}
use zed_api_server_rs.Text.{Str, str, str_eq}
use zed_api_server_rs.Audit.{AuditRow}
use zed_api_server_rs.Access.{
  ApiResult, ok, err, ◌>>=◌, bad_request, parse, authorize_manage, require_token,
}
use zed_api_server_rs.Yank.{Database, find_org}
use zed_api_server_rs.AuditRoutes.{Faults, all_rows, at_least_zero}

abbrev pub default_limit : ℕ
default_limit = 100

abbrev pub max_limit : ℕ
max_limit = 1000

pub record AuditQuery : Type 0 where
  pub limit : Option ℕ
  pub action : Option Str
  pub before : Option ℤ

pub record AuditEntry : Type 0 where
  pub at : Str
  pub action_kind : Option Str
  pub action : Str
  pub subject : Str
  pub actor_token_name : Str
  pub actor_role : Str
  pub detail : Option Str
  pub seq : ℕ
  pub entry_hash : Str
  pub prev_hash : Option Str

pub record AuditLogResponse : Type 0 where
  pub org : Str
  pub entries : List AuditEntry

-- `.clamp(1, MAX_LIMIT)`
abbrev pub clamp : ℕ → ℕ
clamp n = if ltb n 1 then 1 else if ltb max_limit n then max_limit else n

abbrev pub limit_or : Option ℕ → ℕ
limit_or none = clamp default_limit
limit_or (some n) = clamp n

abbrev pub has_action : Option Str → AuditRow → Bool
has_action none row = true
has_action (some action) row = str_eq row.action action

abbrev pub is_before : Option ℤ → AuditRow → Bool
is_before none row = true
is_before (some before) row = lt_ℤ row.seq before

-- The filters of the query.
abbrev pub selects : ℕ → AuditQuery → AuditRow → Bool
selects org_id query row =
    row.org_id == org_id && (has_action query.action row && is_before query.before row)

abbrev pub filter_rows : (AuditRow → Bool) → List AuditRow → List AuditRow
filter_rows keep [] = []
filter_rows keep (row ∷ rows) =
    if keep row then row ∷ filter_rows keep rows else filter_rows keep rows

-- `.order_by_desc(Seq).order_by_desc(At)`
abbrev pub is_newer : AuditRow → AuditRow → Bool
is_newer row other = lt_ℤ other.seq row.seq || eq_ℤ other.seq row.seq && ltb other.at row.at

abbrev pub insert_newest : AuditRow → List AuditRow → List AuditRow
insert_newest row [] = row ∷ []
insert_newest row (x ∷ rows) = if is_newer row x then row ∷ x ∷ rows else x ∷ insert_newest row rows

abbrev pub order_newest : List AuditRow → List AuditRow
order_newest [] = []
order_newest (row ∷ rows) = insert_newest row (order_newest rows)

abbrev pub page : ℕ → AuditQuery → List AuditRow → List AuditRow
page org_id query rows =
    take (limit_or query.limit) (order_newest (filter_rows (selects org_id query) rows))

module _ (hash_token : Str → Str) (parse_action : Str → Option Str) (to_rfc3339 : ℕ → Str) where
  abbrev pub to_entry : AuditRow → AuditEntry
  to_entry r = record {
    at = to_rfc3339 r.at;
    action_kind = parse_action r.action;
    action = r.action;
    subject = r.subject;
    actor_token_name = r.actor_token_name;
    actor_role = r.actor_role;
    detail = r.detail;
    seq = at_least_zero r.seq;
    entry_hash = r.entry_hash;
    prev_hash = r.prev_hash;
  }

  -- An action that is not one of the known ones is refused.
  unfoldable pub known_action : Option Str → ApiResult Unit
  unfolding str
  known_action none = ok tt
  known_action (some action) = elim (parse_action action) [
    | some kind ↦ ok tt
    | none ↦ err (
        bad_request (str "invalid_action") (
          str "unknown action `"
          ++ action
          ++ str "`; expected publish, yank, unyank, or org_claim"))
  ]

  unfoldable pub get_audit_log :
      Faults → Database → ℕ → Str → AuditQuery → Option Str → ApiResult AuditLogResponse
  unfolding require_token find_org parse authorize_manage known_action str_eq
  get_audit_log faults db now org_slug query header = do
    token ← require_token hash_token now faults.find_token db.tokens header
    org_row ← find_org faults.find_org db.orgs org_slug
    authorized ← authorize_manage token.org_id (parse token.role) org_row.id
    known ← known_action query.action
    rows ← all_rows faults.find_rows (page org_row.id query db.audit_log)
    ok (record { org = org_slug; entries = map to_entry rows })
