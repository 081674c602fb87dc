-- ===== src/Yank/Tests.antt =====
-- A publisher of an organisation withdraws a version; a reader and a stranger do not.
use mathlib.Core.List.{Memᴰ}
use zed_api_server_rs.Prelude.{ℕ, ◌≡◌, refl, true, false, some, none, [], ◌∷◌, ◌++◌, length}
use zed_api_server_rs.Text.{Str, str}
use zed_api_server_rs.Audit.{Token, ChainLibrary}
use zed_api_server_rs.Access.{
  ok, err, unauthorized, forbidden, cannot_publish, reader, require_token, parse,
}
use zed_api_server_rs.Yank.{
  OrgRow, PackageRow, VersionRow, Database, Faults, YankRequest, find_org, find_package,
  find_version, yank,
}
use zed_api_server_rs.Yank.Effects.{Effect, yank-Effect, yank-answers}

abbrev hash : Str → Str
hash plaintext = b'#' ∷ plaintext

abbrev test_lib : ChainLibrary
test_lib = record {
  uuid_text = λ id. id ∷ [];
  to_rfc3339 = λ at. at ∷ [];
  audit_chain_preimage = λ input. input.seq ∷ input.action ++ input.prev_hash;
  sha256_hex = λ b. 120 ∷ b;
}

abbrev token_of : ℕ → Str → Str → Token
token_of org credential role = record {
  id = 7;
  name = str "t";
  token_hash = hash credential;
  org_id = some org;
  role = role;
  created_at = 0;
  expires_at = none;
  revoked_at = none;
}

abbrev acme : OrgRow
acme = record { id = 1; slug = str "acme" }

abbrev http_kit : PackageRow
http_kit = record { id = 2; org_id = 1; name = str "http-kit" }

abbrev first : VersionRow
first = record { id = 3; package_id = 2; version = str "1.0.0"; yanked = false }

abbrev second : VersionRow
second = record { id = 4; package_id = 2; version = str "1.1.0"; yanked = false }

abbrev publisher_token : Token
publisher_token = token_of 1 (str "pub") (str "publisher")

abbrev db : Database
db = record {
  tokens =
      publisher_token
      ∷ token_of 1 (str "read") (str "reader")
      ∷ token_of 9 (str "far") (str "owner")
      ∷ [];
  orgs = acme ∷ [];
  packages = http_kit ∷ [];
  versions = first ∷ second ∷ [];
  audit_log = [];
}

abbrev no_faults : Faults
no_faults = record {
  find_token = false;
  find_org = false;
  find_package = false;
  find_version = false;
  update = false;
}

abbrev request : Str → YankRequest
request header = record {
  org_slug = str "acme";
  name = str "http-kit";
  version = str "1.0.0";
  authorization = some header;
  yanked = true;
  now = 5000123;
  attempts = record { others = []; fails = false; id = 10; now = 5000123 } ∷ [];
}

test-publisher :
    (yank hash test_lib no_faults db (request (str "Bearer pub"))).1.versions
    ≡ record first { yanked = true } ∷ second ∷ []
unfolding yank
test-publisher = refl

test-audited : length (yank hash test_lib no_faults db (request (str "Bearer pub"))).1.audit_log ≡ 1
unfolding yank
test-audited = refl

test-reader :
    yank hash test_lib no_faults db (request (str "Bearer read"))
    ≡ (err (forbidden (str "insufficient_role") (cannot_publish reader)), db)
unfolding yank
test-reader = refl

test-stranger :
    yank hash test_lib no_faults db (request (str "Bearer far")) ≡ (err unauthorized, db)
unfolding yank
test-stranger = refl

yank-Effect_example :
    Effect hash test_lib db
      (request (str "Bearer pub"))
      (yank hash test_lib no_faults db (request (str "Bearer pub")))
yank-Effect_example = yank-Effect hash test_lib no_faults db (request (str "Bearer pub"))

yank-answers_example :
    ((yank hash test_lib no_faults db (request (str "Bearer pub"))).0
      ≡ ok (record {
        org = str "acme";
        name = str "http-kit";
        version = str "1.0.0";
        yanked = true;
      }))
    × Memᴰ
        (record first { yanked = true })
        (yank hash test_lib no_faults db (request (str "Bearer pub"))).1.versions
unfolding require_token find_org find_package find_version parse
yank-answers_example =
    yank-answers hash test_lib no_faults db (request (str "Bearer pub")) publisher_token acme
      http_kit first refl refl (refl, refl) refl refl refl
