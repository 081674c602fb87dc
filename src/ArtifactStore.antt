-- ===== src/ArtifactStore.antt =====
-- src/storage.rs: where artifacts are kept. This file has the errors, the digests of streams, and
-- the process-memory backend; Local and Remote have the other two, Operations what callers use.
pub mod Local
pub mod Remote
pub mod Operations
pub mod WriteOnce
pub mod Streams
pub mod Files
pub mod Keys
pub mod Staging
pub mod Recovery
mod Tests
use zed_api_server_rs.Prelude.{
  ℕ, ◌+◌, ◌^◌, ◌*◌, Bool, true, false, not, ◌&&◌, ◌||◌, Option, none, some, List, [], ◌∷◌, ◌++◌,
  if◌then◌else◌, ◌==◌, ltb, leb, length, all, is_empty,
}
use zed_api_server_rs.Text.{Str, str, str_eq, bytes, is_ascii_digit}

-- The bytes of an artifact.
abbrev pub Blob : Type 0
Blob = List ℕ

-- `collect`, of a body that arrives in parts.
abbrev pub concat : List Blob → Blob
concat [] = []
concat (chunk ∷ chunks) = chunk ++ concat chunks

-- The errors of the store; a backend's own error is not looked into.
pub data StoreErr : Type 0 where
  invalid_digest different_content accounting_overflow backend_error not_stored no_parent : StoreErr
  capacity_exceeded over_ceiling : ℕ → StoreErr
  redacted : Str → StoreErr

-- `anyhow::Result<T>`
pub data Outcome (A : Type 0) : Type 0 where
  done : A → Outcome A
  failed : StoreErr → Outcome A

infixl 10 ◌>>=◌
abbrev pub ◌>>=◌ : {A B : Type 0} → Outcome A → (A → Outcome B) → Outcome B
done a >>= f = f a
failed e >>= f = failed e

abbrev pub max_buffered_artifact_bytes : ℕ
max_buffered_artifact_bytes = 100 * 1024 * 1024

abbrev pub copy_buffer_bytes : ℕ
copy_buffer_bytes = 64 * 1024

unfoldable pub immutable_cache_control : Str
unfolding str
immutable_cache_control = str "public, max-age=31536000, immutable"

unfoldable pub artifact_sha256_metadata_key : Str
unfolding str
artifact_sha256_metadata_key = str "zpkg-sha256"

pub record ExpectedArtifact : Type 0 where
  pub len : ℕ
  pub sha256 : Str
  pub content_type : Str

-- `is_ascii_hexdigit() && !is_ascii_uppercase()`
abbrev pub is_lower_hex : ℕ → Bool
is_lower_hex c = is_ascii_digit c || leb b'a' c && leb c b'f'

-- The guard at the start of `put_verified`.
unfoldable pub is_digest : Str → Bool
unfolding bytes is_ascii_digit
is_digest sha256 = length (bytes sha256) == 64 && all is_lower_hex (bytes sha256)

-- `u64::checked_add`
unfoldable pub checked_add : ℕ → ℕ → Option ℕ
checked_add a b = if ltb (a + b) (2 ^ 64) then some (a + b) else none

-- `objects.get(key)`
unfoldable pub get : Str → List (Str × Blob) → Option Blob
unfolding str_eq
get key [] = none
get key ((k, blob) ∷ objects) = if str_eq k key then some blob else get key objects

-- The `try_fold` over the values of the map.
unfoldable pub retained_bytes : ℕ → List (Str × Blob) → Option ℕ
unfolding checked_add
retained_bytes total [] = some total
retained_bytes total ((k, blob) ∷ objects) = elim (checked_add total (length blob)) [
  | none ↦ none
  | some sum ↦ retained_bytes sum objects
]

abbrev pub or_overflow : Option ℕ → Outcome ℕ
or_overflow none = failed accounting_overflow
or_overflow (some n) = done n

-- The bytes that the map would hold with one more object.
unfoldable pub next_bytes : List (Str × Blob) → Blob → Outcome ℕ
unfolding retained_bytes checked_add
next_bytes objects blob = do
  retained ← or_overflow (retained_bytes 0 objects)
  or_overflow (checked_add retained (length blob))

-- The `Memory` arm of `put_verified`.
unfoldable pub put_memory : ℕ → List (Str × Blob) → Str → Blob → Outcome Unit × List (Str × Blob)
unfolding get next_bytes str_eq
put_memory max_bytes objects key blob = elim (get key objects) [
  | some existing ↦
      if str_eq existing blob then (done tt, objects) else (failed different_content, objects)
  | none ↦ elim (next_bytes objects blob) [
    | failed e ↦ (failed e, objects)
    | done total ↦
        if ltb max_bytes total
        then (failed (capacity_exceeded total), objects)
        else (done tt, (key, blob) ∷ objects)
  ]
]

unfoldable pub guard_buffered : ℕ → Outcome Unit
guard_buffered len =
    if ltb max_buffered_artifact_bytes len then failed (over_ceiling len) else done tt

-- `hash_async_reader` on what the reader yields, read by read: `seen` are the bytes before. An empty
-- read is the end of the stream.
module _ (sha256_hex : Blob → Str) where
  unfoldable pub hash_from : ℕ → Blob → ℕ → List Blob → Outcome (ℕ × Str)
  unfolding checked_add
  hash_from expected_len seen len [] = done (len, sha256_hex seen)
  hash_from expected_len seen len (chunk ∷ chunks) =
      if is_empty chunk
      then done (len, sha256_hex seen)
      else elim (checked_add len (length chunk)) [
        | none ↦ failed accounting_overflow
        | some sum ↦ elim (ltb expected_len sum) [
          | true ↦ done (sum, [])
          | false ↦ hash_from expected_len (seen ++ chunk) sum chunks
        ]
      ]

  unfoldable pub hash_async_reader : List Blob → ℕ → Outcome (ℕ × Str)
  unfolding hash_from
  hash_async_reader chunks expected_len = hash_from expected_len [] 0 chunks

  -- The comparison that follows it.
  unfoldable pub stream_matches : ExpectedArtifact → List Blob → Outcome Bool
  unfolding hash_async_reader str_eq
  stream_matches expected chunks = do
    found ← hash_async_reader chunks expected.len
    done (found.0 == expected.len && str_eq found.1 expected.sha256)
