-- ===== src/Verify.antt =====
-- src/verify.rs and src/signing.rs: what a publication must prove about its tag and its signers.
-- HTTP, percent-encoding and the Ed25519 check of one signature are parameters.
use zed_api_server_rs.Prelude.{
  ℕ, zero, suc, Bool, true, false, not, ◌&&◌, ◌||◌, Option, none, some, List, [], ◌∷◌, ◌++◌,
  reverse, if◌then◌else◌, ◌==◌, length, all, any, is_empty,
}
use zed_api_server_rs.Text.{
  Str, str, str_eq, strip_prefix, split_once_char, trim_end_matches, drop_while,
  is_ascii_alphanumeric,
}
use zed_api_server_rs.ArtifactStore.{Blob}
pub mod Signers
pub mod Trimming
mod Tests

-- `trim_end_matches` with a text, on the reversed texts; a round per character is enough.
unfoldable pub strip_front : ℕ → Str → Str → Str
unfolding strip_prefix
strip_front zero p s = s
strip_front (suc fuel) p s = elim (strip_prefix s p) [ none ↦ s | some r ↦ strip_front fuel p r ]

unfoldable pub trim_end_matches_str : Str → Str → Str
unfolding strip_front
trim_end_matches_str p s = reverse (strip_front (length s) (reverse p) (reverse s))

abbrev pub segment_char : ℕ → Bool
segment_char c = is_ascii_alphanumeric c || (c == b'.' || (c == b'_' || c == b'-'))

-- `segment.trim_matches('.').is_empty()` says that there is nothing but dots.
unfoldable pub valid_repo_segment : Str → Bool
unfolding is_ascii_alphanumeric
valid_repo_segment segment =
    not (is_empty segment) && (all segment_char segment && not (all (λ c. c == b'.') segment))

abbrev pub or_else {ℓ} : {A : Type ℓ} → Option A → Option A → Option A
or_else none b = b
or_else (some a) b = some a

unfoldable pub github_path : Str → Option Str
unfolding strip_prefix str
github_path repo_url = or_else (strip_prefix repo_url (str "https://github.com/")) (
    or_else (strip_prefix repo_url (str "http://github.com/"))
      (strip_prefix repo_url (str "git@github.com:")))

-- The owner and the repository of a path, when both are safe in a request.
unfoldable pub owner_and_repo : Str → Option (Str × Str)
unfolding split_once_char valid_repo_segment
owner_and_repo rest = elim (split_once_char rest b'/') [
  | none ↦ none
  | some (owner, repo) ↦
      if not (any (λ c. c == b'/') repo) && (valid_repo_segment owner && valid_repo_segment repo)
      then some (owner, repo)
      else none
]

unfoldable pub parse_github : Str → Option (Str × Str)
unfolding github_path trim_end_matches trim_end_matches_str owner_and_repo str
parse_github repo_url = elim (github_path repo_url) [
  | none ↦ none
  | some rest ↦
      owner_and_repo (trim_end_matches_str (str ".git") (trim_end_matches (λ c. c == b'/') rest))
]

-- `TagPolicy::Off` and the policy that verifies tags on github.com.
pub data TagPolicy : Type 0 where
  off github : TagPolicy

pub data TagCheck : Type 0 where
  skipped : TagCheck
  verified : Option Str → TagCheck
  missing : TagCheck

-- GitHub's answer: none, a status that is an error, or a body with the type and the commit of what
-- the tag names.
pub data Response : Type 0 where
  unreachable not_found error_status : Response
  object : Option Str → Option Str → Response

-- The commit of a tag that names one; a tag object is left to the clients.
unfoldable pub tag_commit : Option Str → Option Str → Option Str
unfolding str_eq str
tag_commit none sha = none
tag_commit (some kind) sha = if str_eq kind (str "commit") then sha else none

-- `None` is an error of the request.
unfoldable pub tag_check : Response → Option TagCheck
unfolding tag_commit
tag_check unreachable = none
tag_check not_found = some missing
tag_check error_status = none
tag_check (object kind sha) = some (verified (tag_commit kind sha))

unfoldable pub tag_url : (Str → Str) → Str → Str → Str → Str
unfolding str
tag_url encode owner repo tag =
    str "https://api.github.com/repos/"
    ++ encode owner
    ++ str "/"
    ++ encode repo
    ++ str "/git/ref/tags/"
    ++ encode tag

-- `TagVerifier::verify`
unfoldable pub verify :
    (Str → Str) → (Str → Response) → TagPolicy → Bool → Str → Str → Option TagCheck
unfolding parse_github tag_check tag_url
verify encode get off uses_git_tags repo_url tag = some skipped
verify encode get github false repo_url tag = some skipped
verify encode get github true repo_url tag = elim (parse_github repo_url) [
  | none ↦ some skipped
  | some (owner, repo) ↦ tag_check (get (tag_url encode owner repo tag))
]

-- `DetachedSignatureV1`, `PublisherKeyStateV1` and `PublisherKeyV1`
pub record Signature : Type 0 where
  pub algorithm : Str
  pub key_id : Str
  pub value : Str

pub data KeyState : Type 0 where
  active retired revoked : KeyState

-- `verifies`: a retired key still verifies what it signed.
pub record PublisherKey : Type 0 where
  pub key_id : Str
  pub algorithm : Str
  pub public_key_multibase : Str
  pub state : KeyState

-- The columns of a stored key.
pub record KeyRow : Type 0 where
  pub org_id : ℕ
  pub key_id : Str
  pub algorithm : Str
  pub public_key_multibase : Str
  pub state : Str

unfoldable pub row_to_key : KeyRow → PublisherKey
unfolding str_eq str
row_to_key row = record {
  key_id = row.key_id;
  algorithm = row.algorithm;
  public_key_multibase = row.public_key_multibase;
  state =
      if str_eq row.state (str "active")
      then active
      else if str_eq row.state (str "retired")
      then retired
      else revoked;
}

-- The rows come in the order of enrolment.
unfoldable pub load_keys : List KeyRow → ℕ → List PublisherKey
unfolding row_to_key
load_keys [] org_id = []
load_keys (row ∷ rows) org_id =
    if row.org_id == org_id then row_to_key row ∷ load_keys rows org_id else load_keys rows org_id

module _ (algorithm : Str) (verifies : KeyState → Bool)
    (verify_one : Blob → Signature → PublisherKey → Bool) where
  -- The first key that verifies at all and has this id.
  unfoldable pub find_key : Str → List PublisherKey → Option PublisherKey
  unfolding str_eq
  find_key key_id [] = none
  find_key key_id (key ∷ keys) =
      if verifies key.state && str_eq key.key_id key_id then some key else find_key key_id keys

  -- The key that a signature is good for, if there is one.
  unfoldable pub signer : Blob → List PublisherKey → Signature → Option PublisherKey
  unfolding str_eq find_key
  signer preimage keys signature =
      if str_eq signature.algorithm algorithm
      then elim (find_key signature.key_id keys) [
        | none ↦ none
        | some key ↦ if verify_one preimage signature key then some key else none
      ]
      else none

  -- `verify_any`: the first signature that is good decides; the texts of its errors are left out.
  unfoldable pub verify_any : Blob → List Signature → List PublisherKey → Option PublisherKey
  unfolding signer
  verify_any preimage [] keys = none
  verify_any preimage (signature ∷ signatures) keys = elim (signer preimage keys signature) [
    | some key ↦ some key
    | none ↦ verify_any preimage signatures keys
  ]
