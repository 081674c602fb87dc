-- ===== src/ArtifactStore/Operations.antt =====
-- src/storage.rs: the operations of `ArtifactStore` that the routes call, over the three backends.
use zed_api_server_rs.Prelude.{
  ℕ, ℤ, pos, negsuc, Bool, true, false, Option, none, some, List, [], ◌∷◌, ◌++◌, if◌then◌else◌,
  length, ◌⊎◌, inl, inr,
}
use zed_api_server_rs.Text.{Str, str}
use zed_api_server_rs.StorageReport.{
  StorageBackend, process_memory_backend, filesystem_backend, object_store_backend, ObjectHead,
  default_head, redact_backend_error,
}
use zed_api_server_rs.ArtifactStore.{
  Blob, Outcome, done, failed, ◌>>=◌, backend_error, not_stored, invalid_digest, redacted,
  ExpectedArtifact, is_digest, get, concat, put_memory, guard_buffered,
}
use zed_api_server_rs.ArtifactStore.Local.{
  Node, file, directory, Files, lookup, LocalWorld, put_local,
}
use zed_api_server_rs.ArtifactStore.Remote.{GetObject, put_s3, get_metadata, is_not_found}

pub data StorageConfig : Type 0 where
  memory_config : ℕ → StorageConfig
  local_config : Str → StorageConfig
  s3_config : Str → Option Str → Str → Bool → StorageConfig

-- The objects of the bucket stay with the service.
pub data ArtifactStore : Type 0 where
  memory : List (Str × Blob) → ℕ → ArtifactStore
  local : Str → Files → ArtifactStore
  s3 : Str → ArtifactStore

-- The answer to a HEAD of an object; times are rendered by the library.
pub record HeadObject : Type 0 where
  pub content_length : Option ℤ
  pub metadata : Option (List (Str × Str))
  pub content_type : Option Str
  pub cache_control : Option Str
  pub last_modified : Option Str

-- What the operating system and the service do during an operation.
pub record World : Type 0 where
  pub local_world : LocalWorld
  pub open_fails : Bool
  pub modified : Option Str
  pub directory_len : ℕ
  pub put_object : Outcome Unit
  pub get_object : Outcome GetObject
  pub presigned : Outcome Str
  pub head_object : HeadObject ⊎ Str

-- A served download; a file's length is read from its metadata.
pub data Download : Type 0 where
  redirect : Str → Download
  bytes_of : Blob → Download
  file_of : Blob → ℕ → Download

abbrev pub from_config : Files → StorageConfig → ArtifactStore
from_config files (memory_config max_bytes) = memory [] max_bytes
from_config files (local_config dir) = local dir files
from_config files (s3_config bucket endpoint_url region force_path_style) = s3 bucket

unfoldable pub local_path : Str → Str → Str
unfolding str
local_path dir key = dir ++ str "/" ++ key

abbrev pub expect : Blob → Str → Str → ExpectedArtifact
expect blob content_type sha256 = record {
  len = length blob;
  sha256 = sha256;
  content_type = content_type;
}

module _ (sha256_hex : Blob → Str) where
  -- The write, after the guard on the digest.
  unfoldable pub put :
      World → ArtifactStore → Str → Blob → ExpectedArtifact → Outcome Unit × ArtifactStore
  unfolding put_memory put_local put_s3 local_path
  put world (memory objects max_bytes) key blob expected =
      let stored = put_memory max_bytes objects key blob in (stored.0, memory stored.1 max_bytes)
  put world (local dir files) key blob expected =
      let stored =
        put_local sha256_hex world.local_world files (local_path dir key) blob expected in
      (stored.0, local dir stored.1)
  put world (s3 bucket) key blob expected =
      (put_s3 sha256_hex world.put_object world.get_object expected, s3 bucket)

  unfoldable pub put_verified :
      World → ArtifactStore → Str → Blob → Str → Str → Outcome Unit × ArtifactStore
  unfolding put is_digest
  put_verified world store key blob content_type sha256 =
      if is_digest sha256
      then put world store key blob (expect blob content_type sha256)
      else (failed invalid_digest, store)

  -- The loop of `put_public_aliases`: it ends at the first write that fails. Each write has its own world.
  unfoldable pub put_each :
      (Str → World) → ArtifactStore → List Str → Blob → Str → Str → Outcome Unit × ArtifactStore
  unfolding put_verified
  put_each world store [] blob content_type sha256 = (done tt, store)
  put_each world store (key ∷ keys) blob content_type sha256 =
      let (written, after) = put_verified (world key) store key blob content_type sha256 in
      elim written [
        | failed e ↦ (failed e, after)
        | done u ↦ put_each world after keys blob content_type sha256
      ]

  unfoldable pub put_public_aliases :
      (Str → World) → ArtifactStore → List Str → Blob → Str → Str → Outcome Unit × ArtifactStore
  unfolding put_each
  put_public_aliases world (memory objects max_bytes) keys blob content_type sha256 =
      (done tt, memory objects max_bytes)
  put_public_aliases world (local dir files) keys blob content_type sha256 =
      put_each world (local dir files) keys blob content_type sha256
  put_public_aliases world (s3 bucket) keys blob content_type sha256 =
      put_each world (s3 bucket) keys blob content_type sha256

abbrev pub stored_or_error : Option Blob → Outcome Blob
stored_or_error none = failed not_stored
stored_or_error (some blob) = done blob

-- Opening or reading the path of a local object: a directory or a missing file is an error.
abbrev pub read_node : Bool → Option Node → Outcome Blob
read_node true found = failed backend_error
read_node false none = failed backend_error
read_node false (some directory) = failed backend_error
read_node false (some (file blob)) = done blob

unfoldable pub download : World → ArtifactStore → Str → Outcome Download
unfolding get lookup local_path
download world (memory objects max_bytes) key =
    stored_or_error (get key objects) >>= (λ blob. done (bytes_of blob))
download world (local dir files) key =
    read_node world.open_fails (lookup (local_path dir key) files)
    >>= (λ blob. done (file_of blob (length blob)))
download world (s3 bucket) key = world.presigned >>= (λ uri. done (redirect uri))

-- `guard_buffered(key, len.max(0) as u64)` on a declared length, if there is one.
abbrev pub guard_declared : Option ℤ → Outcome Unit
guard_declared none = done tt
guard_declared (some (pos n)) = guard_buffered n
guard_declared (some (negsuc n)) = guard_buffered 0

unfoldable pub get_bytes : World → ArtifactStore → Str → Outcome Blob
unfolding get lookup local_path guard_buffered
get_bytes world (memory objects max_bytes) key = do
  blob ← stored_or_error (get key objects)
  guarded ← guard_buffered (length blob)
  done blob
get_bytes world (local dir files) key = do
  blob ← read_node world.open_fails (lookup (local_path dir key) files)
  guarded ← guard_buffered (length blob)
  done blob
get_bytes world (s3 bucket) key = do
  object ← world.get_object
  declared ← guard_declared object.content_length
  guarded ← guard_buffered (length (concat object.body))
  done (concat object.body)

unfoldable pub describe : ArtifactStore → StorageConfig → StorageBackend
unfolding str
describe (memory objects max_bytes) config = process_memory_backend
describe (local dir files) config = filesystem_backend dir
describe (s3 bucket) (s3_config name endpoint_url region force_path_style) =
    object_store_backend bucket region endpoint_url force_path_style
describe (s3 bucket) (memory_config max_bytes) = object_store_backend bucket [] none false
describe (s3 bucket) (local_config dir) = object_store_backend bucket [] none false

-- `len.max(0) as u64`
abbrev pub at_least_zero : ℤ → ℕ
at_least_zero (pos n) = n
at_least_zero (negsuc n) = 0

abbrev pub map_len : Option ℤ → Option ℕ
map_len none = none
map_len (some n) = some (at_least_zero n)

-- The answer to the HEAD request; one that fails comes with the rendered error.
unfoldable pub head_s3 : HeadObject ⊎ Str → Outcome (Option ObjectHead)
unfolding is_not_found redact_backend_error
head_s3 (inl object) = done (
    some (record {
      size = map_len object.content_length;
      sha256 = get_metadata object.metadata;
      content_type = object.content_type;
      cache_control = object.cache_control;
      last_modified = object.last_modified;
    }))
head_s3 (inr rendered) =
    if is_not_found rendered then done none else failed (redacted (redact_backend_error rendered))

abbrev pub node_len : ℕ → Node → ℕ
node_len directory_len directory = directory_len
node_len directory_len (file blob) = length blob

unfoldable pub head : World → ArtifactStore → Str → Outcome (Option ObjectHead)
unfolding get lookup local_path head_s3
head world (memory objects max_bytes) key = elim (get key objects) [
  | none ↦ done none
  | some blob ↦ done (some (record default_head { size = some (length blob) }))
]
head world (local dir files) key =
    if world.open_fails then failed backend_error else elim (lookup (local_path dir key) files) [
      | none ↦ done none
      | some found ↦ done (
          some (record default_head {
            size = some (node_len world.directory_len found);
            last_modified = world.modified;
          }))
    ]
head world (s3 bucket) key = head_s3 world.head_object
