-- ===== src/Publish/Tests.antt =====
-- src/routes/publish.rs: publications over the process-memory store.
use mathlib.Core.List.{Memᴰ}
use zed_api_server_rs.Prelude.{
  true, false, none, some, List, [], ◌∷◌, ◌++◌, inl, inr, length, All, ◌≡◌, refl,
}
use zed_api_server_rs.Text.{Str, str}
use zed_api_server_rs.Audit.{ChainLibrary, Token}
use zed_api_server_rs.Access.{
  ApiErr, ApiResult, ok, err, conflict, service_unavailable, unauthorized,
}
use zed_api_server_rs.ArtifactStore.{Blob}
use zed_api_server_rs.Verify.{Response, off}
use zed_api_server_rs.Publish.{
  VersionRow, Database, PublishMeta, field, Library, Events, PublishRequest, PublishResponse,
}
use zed_api_server_rs.Publish.Release.{publish}
use zed_api_server_rs.Publish.Memory.{memory_storage, memory_storage-IsStorage}
use zed_api_server_rs.Publish.Immutable.{Unique, publish-Keeps}
use zed_api_server_rs.Publish.Backed.{Backed, publish-Backed}
use zed_api_server_rs.Publish.Refusals.{Refused, publish-Refused}
use zed_api_server_rs.Publish.Commits.{Published, publish-Published}

abbrev test_chain : ChainLibrary
test_chain = record {
  uuid_text = λ id. id ∷ [];
  to_rfc3339 = λ at. at ∷ [];
  audit_chain_preimage = λ input. input.seq ∷ input.action ++ input.prev_hash;
  sha256_hex = λ b. 120 ∷ b;
}

abbrev digest : Str
digest = str "aaaaaaaaaaaaaaaaaaaaaaaaaaaaaaaaaaaaaaaaaaaaaaaaaaaaaaaaaaaaaaaa"

abbrev meta : PublishMeta
meta = record {
  pkg = record {
    org = str "acme";
    name = str "http-kit";
    version = str "1.0.0";
    description = none;
    vcs = str "git";
    uses_git_tags = true;
    repo_url = str "https://github.com/acme/http-kit";
    version_scheme = str "semver";
    keywords = [];
  };
  rest = [];
  sha256 = digest;
  size = 3;
  format = record { extension = str "zip"; content_type = str "application/zip" };
  vcs_tag = str "v1.0.0";
  vcs_commit = none;
  published_at = none;
  signatures = [];
  mirrors = [];
}

abbrev lib : Library
lib = record {
  sha256_hex = λ b. digest;
  hash_token = λ t. b'#' ∷ t;
  chain = test_chain;
  meta_field = str "meta";
  artifact_field = str "artifact";
  parse_meta = λ t. inr meta;
  validate = λ m. none;
  verify_publish = λ m b. none;
  encode = λ s. s;
  get = λ url. Response.unreachable;
  preimage = λ a. inr [];
  algorithm = str "ed25519";
  verifies = λ s. true;
  verify_one = λ b s k. true;
  parse_rfc3339 = λ s. none;
  to_rfc3339 = λ t. t ∷ [];
  encode_mirrors = λ m. inr [];
  encode_signatures = λ s. inr [];
  adopt = some (λ input. ok tt);
}

abbrev events : Events
events = record {
  find_token_fails = false;
  find_org_fails = false;
  load_keys_fails = false;
  find_package_fails = false;
  find_version_fails = false;
  begin_fails = false;
  upsert_fails = false;
  insert_fails = false;
  commit_fails = false;
  recheck_fails = false;
  package_id = 20;
  version_id = 30;
  other_packages = [];
  other_versions = [];
  attempts = [];
}

abbrev publisher : Token
publisher = record {
  id = 7;
  name = str "t";
  token_hash = str "#pub";
  org_id = some 1;
  role = str "publisher";
  created_at = 0;
  expires_at = none;
  revoked_at = none;
}

abbrev db : Database
db = record {
  tokens = publisher ∷ [];
  orgs = record { id = 1; slug = str "acme" } ∷ [];
  keys = [];
  packages = [];
  versions = [];
  audit_log = [];
}

abbrev request : PublishRequest
request = record {
  org_slug = str "acme";
  name = str "http-kit";
  version = str "1.0.0";
  authorization = some (str "Bearer pub");
  user_agent = none;
  parts =
      field (some (str "meta")) (inr []) (inl [])
      ∷ field (some (str "artifact")) (inl []) (inr (1 ∷ 2 ∷ 3 ∷ []))
      ∷ [];
  policy = off;
  now = 5;
}

abbrev answer : PublishResponse
answer = record { org = str "acme"; name = str "http-kit"; version = str "1.0.0"; sha256 = digest }

abbrev first_publication : ApiResult PublishResponse × Database × List (Str × Blob)
first_publication = publish (memory_storage 100) lib events request db []

test-published : first_publication.0 ≡ ok answer
unfolding publish memory_storage str
test-published = refl

test-stored : length first_publication.2 ≡ 1
unfolding publish memory_storage str
test-stored = refl

-- The same publication again, and another user's token.
test-again :
    (publish (memory_storage 100) lib events request first_publication.1 first_publication.2).0
    ≡ err (
        conflict
          (str "version_exists")
          (str "acme/http-kit@1.0.0 is already published; canonical projection reconciled"))
unfolding publish memory_storage str
test-again = refl

test-no_token :
    (publish (memory_storage 100) lib events (record request { authorization = none }) db []).0
    ≡ err unauthorized
unfolding publish memory_storage str
test-no_token = refl

test-not_adopted :
    (publish (memory_storage 100) (record lib { adopt = none }) events request db []).1.versions
    ≡ first_publication.1.versions
unfolding publish memory_storage str
test-not_adopted = refl

publish-Published_example :
    Published lib events request db answer (publish (memory_storage 100) lib events request db []).1
unfolding publish memory_storage str
publish-Published_example =
    publish-Published (memory_storage 100) lib events request db [] answer refl

abbrev first_row : VersionRow
first_row = record {
  id = 30;
  package_id = 20;
  version = str "1.0.0";
  sha256 = digest;
  size = 3;
  format = str "zip";
  vcs_tag = str "v1.0.0";
  vcs_commit = none;
  artifact_key = str "artifacts/" ++ digest ++ str ".zip";
  yanked = false;
  published_at = 5;
  mirrors = [];
  signatures = [];
}

abbrev second_publication : ApiResult PublishResponse × Database × List (Str × Blob)
second_publication =
    publish (memory_storage 100) lib events request first_publication.1 first_publication.2

publish-Keeps_example :
    All (λ row. Memᴰ row second_publication.1.versions) first_publication.1.versions
    × Unique second_publication.1.versions
unfolding publish memory_storage str
publish-Keeps_example =
    publish-Keeps (memory_storage 100) lib events request first_publication.1 first_publication.2
      (refl, tt)

publish-Backed_example :
    All
      (Backed
        (memory_storage 100)
        lib.sha256_hex
        (publish (memory_storage 100) lib events request db []).2)
      (publish (memory_storage 100) lib events request db []).1.versions
publish-Backed_example =
    publish-Backed (memory_storage 100) (memory_storage-IsStorage 100) lib events request db [] tt

abbrev unavailable : ApiErr
unavailable =
    service_unavailable (str "registry_data_plane_unavailable")
      (str "canonical registry write context is not configured")

publish-Refused_example :
    Refused
      (record lib { adopt = none })
      events
      request
      db
      unavailable
      (publish (memory_storage 100) (record lib { adopt = none }) events request db []).1
unfolding publish memory_storage str
publish-Refused_example =
    publish-Refused (memory_storage 100) (record lib { adopt = none }) events request db []
      unavailable refl
