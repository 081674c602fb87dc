-- ===== src/AuditRoutes.antt =====
-- src/routes/audit.rs: the route that verifies an organisation's audit chain.
pub mod Verdict
pub mod Listing
pub mod Newest
pub mod Pages
mod Tests
use zed_api_server_rs.Prelude.{
  ℕ, Bool, true, false, Option, none, some, List, [], ◌∷◌, if◌then◌else◌, take, ℤ, pos, negsuc,
  lt_ℤ,
}
use mathlib.Core.Option
use zed_api_server_rs.Text.{Str, str}
use zed_api_server_rs.Audit.{
  AuditRow, ChainLibrary, ChainProblem, hash_mismatch, broken_link, sequence_gap, ChainReport,
  of_org, verify_chain,
}
use zed_api_server_rs.Access.{
  ApiResult, ok, err, ◌>>=◌, database_error, parse, authorize_manage, require_token,
}
use zed_api_server_rs.Yank.{Database, OrgRow, find_org}

abbrev pub max_verify_rows : ℕ
max_verify_rows = 50000

-- `ChainProblem::as_str` of src/audit.rs
abbrev pub problem_text : ChainProblem → Str
problem_text hash_mismatch = str "hash_mismatch"
problem_text broken_link = str "broken_link"
problem_text sequence_gap = str "sequence_gap"

pub record AuditIntegrityResponse : Type 0 where
  pub org : Str
  pub intact : Bool
  pub entries_checked : ℕ
  pub first_bad_seq : Option ℕ
  pub problem : Option Str
  pub head_hash : Option Str

-- `s.max(0) as u64`
abbrev pub at_least_zero : ℤ → ℕ
at_least_zero (pos n) = n
at_least_zero (negsuc n) = 0

-- `.order_by_asc(Seq)`
abbrev pub insert_by_seq : AuditRow → List AuditRow → List AuditRow
insert_by_seq row [] = row ∷ []
insert_by_seq row (x ∷ rows) =
    if lt_ℤ x.seq row.seq then x ∷ insert_by_seq row rows else row ∷ x ∷ rows

abbrev pub order_by_seq : List AuditRow → List AuditRow
order_by_seq [] = []
order_by_seq (row ∷ rows) = insert_by_seq row (order_by_seq rows)

-- Which of the route's queries a database error ends.
pub record Faults : Type 0 where
  pub find_token : Bool
  pub find_org : Bool
  pub find_rows : Bool

abbrev pub all_rows : Bool → List AuditRow → ApiResult (List AuditRow)
all_rows true rows = err database_error
all_rows false rows = ok rows

module _ (hash_token : Str → Str) (lib : ChainLibrary) where
  abbrev pub response : Str → ChainReport → AuditIntegrityResponse
  response org_slug report = record {
    org = org_slug;
    intact = report.intact;
    entries_checked = report.entries_checked;
    first_bad_seq = Option.map at_least_zero report.first_bad_seq;
    problem = Option.map problem_text report.problem;
    head_hash = report.head_hash;
  }

  unfoldable pub verify_audit_log :
      Faults → Database → ℕ → Str → Option Str → ApiResult AuditIntegrityResponse
  unfolding require_token find_org parse authorize_manage verify_chain
  verify_audit_log faults db now org_slug header = do
    token ← require_token hash_token now faults.find_token db.tokens header
    org_row ← find_org faults.find_org db.orgs org_slug
    authorized ← authorize_manage token.org_id (parse token.role) org_row.id
    rows ←
        all_rows faults.find_rows
          (take max_verify_rows (order_by_seq (of_org org_row.id db.audit_log)))
    ok (response org_slug (verify_chain lib rows))
