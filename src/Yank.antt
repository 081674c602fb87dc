-- ===== src/Yank.antt =====
-- src/routes/yank.rs: withdrawing and restoring a published version.
-- The lookups of src/routes/mod.rs that it calls are here too.
pub mod Lookups
pub mod Effects
mod Tests
use zed_api_server_rs.Prelude.{
  ℕ, Bool, true, false, ◌&&◌, Option, List, [], ◌∷◌, ◌++◌, if◌then◌else◌, ◌==◌, none, map,
}
use zed_api_server_rs.Text.{Str, str, str_eq}
use zed_api_server_rs.Audit.{AuditRow, Attempt, ChainLibrary, Token, Entry, record_entry}
use zed_api_server_rs.Access.{
  ApiErr, ApiResult, ok, err, ◌>>=◌, database_error, not_found, parse, authorize_publish, one,
  query, require_token,
}

-- The columns that the handler reads or writes.
pub record OrgRow : Type 0 where
  pub id : ℕ
  pub slug : Str

pub record PackageRow : Type 0 where
  pub id : ℕ
  pub org_id : ℕ
  pub name : Str

pub record VersionRow : Type 0 where
  pub id : ℕ
  pub package_id : ℕ
  pub version : Str
  pub yanked : Bool

pub record Database : Type 0 where
  pub tokens : List Token
  pub orgs : List OrgRow
  pub packages : List PackageRow
  pub versions : List VersionRow
  pub audit_log : List AuditRow

-- Which of the handler's statements a database error ends.
pub record Faults : Type 0 where
  pub find_token : Bool
  pub find_org : Bool
  pub find_package : Bool
  pub find_version : Bool
  pub update : Bool

-- The parameters of a request: its path, its credential, its body, the time, and what befalls the
-- audit record.
pub record YankRequest : Type 0 where
  pub org_slug : Str
  pub name : Str
  pub version : Str
  pub authorization : Option Str
  pub yanked : Bool
  pub now : ℕ
  pub attempts : List Attempt

pub record YankResponse : Type 0 where
  pub org : Str
  pub name : Str
  pub version : Str
  pub yanked : Bool

unfoldable pub find_org : Bool → List OrgRow → Str → ApiResult OrgRow
unfolding str_eq str
find_org db_fails orgs slug =
    query db_fails (one (λ o. str_eq o.slug slug) orgs) (not_found (str "org"))

unfoldable pub find_package : Bool → List PackageRow → OrgRow → Str → ApiResult PackageRow
unfolding str_eq str
find_package db_fails packages org_row name =
    query db_fails (one (λ p. p.org_id == org_row.id && str_eq p.name name) packages)
      (not_found (str "package"))

unfoldable pub find_version : Bool → List VersionRow → PackageRow → Str → ApiResult VersionRow
unfolding str_eq str
find_version db_fails versions pkg ver =
    query db_fails (one (λ v. v.package_id == pkg.id && str_eq v.version ver) versions)
      (not_found (str "version"))

-- `active.update`: the row with the same primary key gets the new flag.
abbrev pub set_yanked : ℕ → Bool → List VersionRow → List VersionRow
set_yanked id yanked [] = []
set_yanked id yanked (row ∷ rows) =
    (if row.id == id then record row { yanked = yanked } else row) ∷ set_yanked id yanked rows

abbrev pub run_update : Bool → ApiResult Unit
run_update true = err database_error
run_update false = ok tt

-- `AuditAction::Yank` or `AuditAction::Unyank`, in the text that is stored.
abbrev pub action : Bool → Str
action yanked = if yanked then str "yank" else str "unyank"

abbrev pub subject : YankRequest → Str
subject request = request.org_slug ++ str "/" ++ request.name ++ str "@" ++ request.version

module _ (hash_token : Str → Str) (lib : ChainLibrary) where
  -- What the handler decides before it changes anything: the token, the organisation and the version.
  unfoldable pub admitted :
      Faults → Database → YankRequest → ApiResult (Token × OrgRow × VersionRow)
  unfolding require_token find_org find_package find_version parse authorize_publish
  admitted faults db request = do
    token ← require_token hash_token request.now faults.find_token db.tokens request.authorization
    org_row ← find_org faults.find_org db.orgs request.org_slug
    authorized ← authorize_publish token.org_id (parse token.role) org_row.id
    pkg ← find_package faults.find_package db.packages org_row request.name
    row ← find_version faults.find_version db.versions pkg request.version
    updated ← run_update faults.update
    ok (token, org_row, row)

  -- The audit record of a change; its id and time come with each attempt.
  abbrev pub audit_entry : YankRequest → Token → OrgRow → Entry
  audit_entry request token org_row = record {
    org_id = org_row.id;
    token = token;
    action = action request.yanked;
    subject = subject request;
    detail = none;
    id = 0;
    now = request.now;
  }

  unfoldable pub yank : Faults → Database → YankRequest → ApiResult YankResponse × Database
  unfolding admitted record_entry
  yank faults db request = elim (admitted faults db request) [
    | err e ↦ (err e, db)
    | ok found ↦ (
      ok (record {
        org = request.org_slug;
        name = request.name;
        version = request.version;
        yanked = request.yanked;
      }),
      record db {
        versions = set_yanked found.2.id request.yanked db.versions;
        audit_log =
            (record_entry lib request.attempts db.audit_log
              (audit_entry request found.0 found.1)).0;
      },
    )
  ]
