-- ===== src/AuditRoutes/Tests.antt =====
-- An owner has a chain of one row verified; a publisher may not.
use mathlib.Core.List.{Memᴰ}
use zed_api_server_rs.Prelude.{
  ◌≡◌, refl, false, Option, some, none, List, [], ◌∷◌, ◌++◌, take, pos, if◌then◌else◌, ◌||◌, map,
}
use zed_api_server_rs.Text.{Str, str, str_eq}
use zed_api_server_rs.Audit.{AuditRow, Token, ChainLibrary, Entry, next_row, chained, of_org}
use zed_api_server_rs.Audit.Links.{intact_report}
use zed_api_server_rs.Audit.Append.{NeverEmpty, IsLog, append_chained-IsLog}
use zed_api_server_rs.Access.{
  ok, err, bad_request, forbidden, publisher, cannot_manage, can_manage, parse, require_token,
}
use zed_api_server_rs.Access.Roles.{MayAct}
use zed_api_server_rs.Yank.{Database, OrgRow}
use zed_api_server_rs.AuditRoutes.{
  Faults, AuditIntegrityResponse, response, verify_audit_log, max_verify_rows,
}
use zed_api_server_rs.AuditRoutes.Listing.{
  AuditQuery, AuditLogResponse, page, to_entry, get_audit_log,
}
use zed_api_server_rs.Access.Credentials.{Vetted}
use zed_api_server_rs.AuditRoutes.Pages.{IsPage, get_audit_log-IsPage}
use zed_api_server_rs.AuditRoutes.Verdict.{verify_audit_log-Intact}

abbrev hash : Str → Str
hash plaintext = b'#' ∷ plaintext

abbrev test_lib : ChainLibrary
test_lib = record {
  uuid_text = λ id. id ∷ [];
  to_rfc3339 = λ at. at ∷ [];
  audit_chain_preimage = λ input. input.seq ∷ input.action ++ input.prev_hash;
  sha256_hex = λ b. 120 ∷ b;
}

abbrev token_of : Str → Str → Token
token_of credential role = record {
  id = 7;
  name = str "t";
  token_hash = hash credential;
  org_id = some 1;
  role = role;
  created_at = 0;
  expires_at = none;
  revoked_at = none;
}

abbrev owner_token : Token
owner_token = token_of (str "own") (str "owner")

abbrev acme : OrgRow
acme = record { id = 1; slug = str "acme" }

abbrev claim : Entry
claim = record {
  org_id = 1;
  token = owner_token;
  action = str "org_claim";
  subject = str "acme";
  detail = none;
  id = 5;
  now = 5000123;
}

abbrev db : Database
db = record {
  tokens = owner_token ∷ token_of (str "pub") (str "publisher") ∷ [];
  orgs = acme ∷ [];
  packages = [];
  versions = [];
  audit_log = next_row test_lib none claim ∷ [];
}

abbrev no_faults : Faults
no_faults = record { find_token = false; find_org = false; find_rows = false }

never_empty : NeverEmpty test_lib
never_empty b e = cc

db-IsLog : IsLog test_lib db.audit_log
unfolding next_row
db-IsLog = (append_chained-IsLog test_lib never_empty [] claim (λ org. tt)).1

test-publisher :
    verify_audit_log hash test_lib no_faults db 1 (str "acme") (some (str "Bearer pub"))
    ≡ err (forbidden (str "insufficient_role") (cannot_manage publisher))
unfolding verify_audit_log
test-publisher = refl

abbrev answer : AuditIntegrityResponse
answer = response hash test_lib (str "acme") (intact_report test_lib db.audit_log)

verify_audit_log-Intact_example :
    (token : Token) × (org_row : OrgRow) × (require_token hash 1 false db.tokens
        (some (str "Bearer own"))
      ≡ ok token)
    × Memᴰ org_row db.orgs
    × (org_row.slug ≡ str "acme")
    × MayAct can_manage token.org_id (parse token.role) org_row.id
    × (answer
        ≡ response hash test_lib (str "acme") (
            intact_report test_lib
              (chained (take max_verify_rows (of_org org_row.id db.audit_log)))))
unfolding verify_audit_log next_row
verify_audit_log-Intact_example =
    verify_audit_log-Intact hash test_lib no_faults db 1 (str "acme") (some (str "Bearer own"))
      answer db-IsLog refl

abbrev log_row : AuditRow
log_row = record {
  id = 5;
  org_id = 1;
  at = 5;
  action = str "publish";
  subject = str "acme/kit@1.0.0";
  actor_token_id = some 7;
  actor_token_name = str "t";
  actor_role = str "owner";
  detail = none;
  seq = pos 1;
  entry_hash = str "h";
  prev_hash = none;
}

abbrev listed_db : Database
listed_db = record db {
  audit_log =
      log_row
      ∷ record log_row { org_id = 2; seq = pos 9 }
      ∷ record log_row { action = str "yank"; seq = pos 2 }
      ∷ record log_row { seq = pos 3 }
      ∷ [];
}

abbrev parse_action : Str → Option Str
parse_action action =
    if str_eq action (str "publish") || str_eq action (str "yank") then some action else none

abbrev publishes : AuditQuery
publishes = record { limit = some 2; action = some (str "publish"); before = none }

test-newest_first :
    page 1 publishes listed_db.audit_log ≡ record log_row { seq = pos 3 } ∷ log_row ∷ []
unfolding str_eq str
test-newest_first = refl

test-unknown_action :
    get_audit_log hash parse_action
      (λ t. [])
      no_faults
      listed_db
      1
      (str "acme")
      (record publishes { action = some (str "publsh") })
      (some (str "Bearer own"))
    ≡ err (
        bad_request
          (str "invalid_action")
          (str "unknown action `publsh`; expected publish, yank, unyank, or org_claim"))
unfolding get_audit_log str
test-unknown_action = refl

abbrev listing : AuditLogResponse
listing = record {
  org = str "acme";
  entries =
      map (to_entry hash parse_action (λ t. [])) (record log_row { seq = pos 3 } ∷ log_row ∷ []);
}

get_audit_log-IsPage_example :
    (token : Token) × (org_row : OrgRow) × (rows : List AuditRow) × Vetted hash 1 false
      listed_db.tokens
      (some (str "Bearer own"))
      (ok token)
    × Memᴰ org_row listed_db.orgs
    × (org_row.slug ≡ str "acme")
    × MayAct can_manage token.org_id (parse token.role) org_row.id
    × (listing.entries ≡ map (to_entry hash parse_action (λ t. [])) rows)
    × IsPage org_row.id publishes listed_db.audit_log rows
unfolding get_audit_log str
get_audit_log-IsPage_example =
    get_audit_log-IsPage hash parse_action (λ t. []) no_faults listed_db 1 (str "acme") publishes
      (some (str "Bearer own")) listing refl
