-- ===== src/ArtifactStore/Remote.antt =====
-- src/storage.rs: the S3 backend. The service is not modelled: what it answers to each request is an
-- argument.
use zed_api_server_rs.Prelude.{
  ℕ, ℤ, pos, negsuc, Bool, true, false, ◌&&◌, ◌||◌, Option, none, some, List, [], ◌∷◌,
  if◌then◌else◌, ◌==◌,
}
use zed_api_server_rs.Text.{Str, str, str_eq, contains, to_ascii_lowercase}
use zed_api_server_rs.ArtifactStore.{
  Blob, StoreErr, Outcome, done, failed, ExpectedArtifact, immutable_cache_control,
  artifact_sha256_metadata_key, stream_matches,
}

-- The answer to a GET of an object.
pub record GetObject : Type 0 where
  pub content_length : Option ℤ
  pub content_type : Option Str
  pub cache_control : Option Str
  pub metadata : Option (List (Str × Str))
  pub body : List Blob

-- `u64::try_from(len).ok()`
abbrev pub to_u64 : Option ℤ → Option ℕ
to_u64 none = none
to_u64 (some (pos n)) = some n
to_u64 (some (negsuc n)) = none

abbrev pub eq_some_len : Option ℕ → ℕ → Bool
eq_some_len none n = false
eq_some_len (some m) n = m == n

abbrev pub eq_some_text : Option Str → Str → Bool
eq_some_text none t = false
eq_some_text (some s) t = str_eq s t

unfoldable pub get_value : Str → List (Str × Str) → Option Str
unfolding str_eq
get_value key [] = none
get_value key ((k, value) ∷ values) = if str_eq k key then some value else get_value key values

abbrev pub get_metadata : Option (List (Str × Str)) → Option Str
get_metadata none = none
get_metadata (some values) = get_value artifact_sha256_metadata_key values

unfoldable pub object_metadata_matches :
    Option ℤ → Option Str → Option Str → Option (List (Str × Str)) → ExpectedArtifact → Bool
unfolding str_eq get_value immutable_cache_control artifact_sha256_metadata_key
object_metadata_matches content_length content_type cache_control metadata expected =
    eq_some_len (to_u64 content_length) expected.len
    && (eq_some_text content_type expected.content_type
        && (eq_some_text cache_control immutable_cache_control
            && eq_some_text (get_metadata metadata) expected.sha256))

module _ (sha256_hex : Blob → Str) where
  -- `s3_object_matches`, on what the GET answers.
  unfoldable pub s3_object_matches : Outcome GetObject → ExpectedArtifact → Outcome Bool
  unfolding object_metadata_matches stream_matches
  s3_object_matches (failed e) expected = failed e
  s3_object_matches (done object) expected =
      elim (object_metadata_matches object.content_length object.content_type object.cache_control
        object.metadata expected) [
          | false ↦ done false
          | true ↦ stream_matches sha256_hex expected object.body
        ]

  -- What the check of the object that is there makes of a PUT that failed.
  abbrev pub recovered : StoreErr → Outcome Bool → Outcome Unit
  recovered e (done true) = done tt
  recovered e (done false) = failed e
  recovered e (failed other) = failed e

  -- The `S3` arm of `put_verified`, on what the conditional PUT and the GET after it answer.
  unfoldable pub put_s3 : Outcome Unit → Outcome GetObject → ExpectedArtifact → Outcome Unit
  unfolding s3_object_matches
  put_s3 (done u) got expected = done tt
  put_s3 (failed e) got expected = recovered e (s3_object_matches got expected)

unfoldable pub is_not_found : Str → Bool
unfolding contains to_ascii_lowercase str
is_not_found rendered =
    let lowered = to_ascii_lowercase rendered in
    contains lowered (str "notfound")
    || (contains lowered (str "not found")
        || (contains lowered (str "nosuchkey") || contains lowered (str "status code: 404")))
