-- ===== src/StorageReport.antt =====
-- src/storage_report.rs: the description of the artifact store, the reconciliation of an object with
-- the registry's record, and the redaction of the store's errors.
pub mod Endpoint
pub mod Vendor
pub mod Objects
pub mod Redaction
mod Tests
use Prim.Native.String.{String}
use zed_api_server_rs.Prelude.{
  ℕ, Bool, true, false, not, ◌&&◌, ◌||◌, Option, none, some, List, [], ◌∷◌, ◌++◌, if◌then◌else◌,
  is_empty, ◌==◌, take,
}
use zed_api_server_rs.Text.Parts.{first_part}
use zed_api_server_rs.Text.{
  Str, str, str_eq, before, behind, split, split_once, split_once_char, rsplit_once_char,
  strip_prefix, starts_with, ends_with, trim, to_ascii_lowercase, eq_ignore_ascii_case, decimal,
  first_line,
}

pub data StorageBackendKind : Type 0 where
  process_memory filesystem object_store : StorageBackendKind

-- `StorageProvider`; `memory` is its `ProcessMemory`.
pub data StorageProvider : Type 0 where
  cloudflare_r2 amazon_s3 google_cloud_storage backblaze_b2 digital_ocean_spaces minio s3_compatible
        local_disk memory :
      StorageProvider

abbrev pub is_durable : StorageBackendKind → Bool
is_durable process_memory = false
is_durable filesystem = true
is_durable object_store = true

-- `StorageBackendKind::as_str`
unfoldable pub kind_as_str : StorageBackendKind → Str
unfolding str
kind_as_str process_memory = str "process-memory"
kind_as_str filesystem = str "filesystem"
kind_as_str object_store = str "object-store"

-- `StorageProvider::as_str`
unfoldable pub provider_as_str : StorageProvider → Str
unfolding str
provider_as_str cloudflare_r2 = str "cloudflare-r2"
provider_as_str amazon_s3 = str "amazon-s3"
provider_as_str google_cloud_storage = str "google-cloud-storage"
provider_as_str backblaze_b2 = str "backblaze-b2"
provider_as_str digital_ocean_spaces = str "digitalocean-spaces"
provider_as_str minio = str "minio"
provider_as_str s3_compatible = str "s3-compatible"
provider_as_str local_disk = str "local-disk"
provider_as_str memory = str "process-memory"

abbrev pub display_name : StorageProvider → Str
display_name cloudflare_r2 = str "Cloudflare R2"
display_name amazon_s3 = str "Amazon S3"
display_name google_cloud_storage = str "Google Cloud Storage"
display_name backblaze_b2 = str "Backblaze B2"
display_name digital_ocean_spaces = str "DigitalOcean Spaces"
display_name minio = str "MinIO"
display_name s3_compatible = str "S3-compatible store"
display_name local_disk = str "Local disk"
display_name memory = str "Process memory"

-- The first part of `split(['/', '?', '#'])`.
abbrev pub is_delimiter : ℕ → Bool
is_delimiter c = c == b'/' || c == b'?' || c == b'#'

abbrev pub after_scheme : Str → Str
after_scheme endpoint = behind endpoint (split_once endpoint (str "://"))

abbrev pub authority_of : Str → Str
authority_of s = first_part (split is_delimiter s)

abbrev pub after_userinfo : Str → Str
after_userinfo authority = behind authority (rsplit_once_char authority b'@')

abbrev pub without_port : Str → Str
without_port host_and_port = elim (strip_prefix host_and_port (str "[")) [
  | some inner ↦ before inner (split_once_char inner b']')
  | none ↦ before host_and_port (split_once_char host_and_port b':')
]

abbrev pub raw_host : Str → Str
raw_host endpoint = without_port (after_userinfo (authority_of (after_scheme endpoint)))

abbrev pub non_empty : Str → Option Str
non_empty s = if is_empty s then none else some s

unfoldable pub endpoint_host : Str → Option Str
unfolding split_once str split rsplit_once_char strip_prefix split_once_char trim to_ascii_lowercase
endpoint_host endpoint = non_empty (to_ascii_lowercase (trim (raw_host endpoint)))

-- `endpoint.and_then(endpoint_host)`
abbrev pub host_of : Option Str → Option Str
host_of none = none
host_of (some endpoint) = endpoint_host endpoint

unfoldable pub suffix_matches : Str → Str → Bool
unfolding str_eq ends_with
suffix_matches host suffix = str_eq host suffix || ends_with host (b'.' ∷ suffix)

unfoldable pub vendor : Str → StorageProvider
unfolding suffix_matches str_eq starts_with str
vendor host =
    if suffix_matches host (str "r2.cloudflarestorage.com")
    then cloudflare_r2
    else if suffix_matches host (str "storage.googleapis.com")
    then google_cloud_storage
    else if suffix_matches host (str "amazonaws.com")
    then amazon_s3
    else if suffix_matches host (str "backblazeb2.com")
    then backblaze_b2
    else if suffix_matches host (str "digitaloceanspaces.com")
    then digital_ocean_spaces
    else if str_eq host (str "minio")
        || suffix_matches host (str "min.io")
        || starts_with host (str "minio.")
    then minio
    else s3_compatible

unfoldable pub classify_object_store : Option Str → StorageProvider
unfolding vendor endpoint_host
classify_object_store endpoint = elim (host_of endpoint) [
  | none ↦ amazon_s3
  | some host ↦ vendor host
]

pub record StorageBackend : Type 0 where
  pub kind : StorageBackendKind
  pub provider : StorageProvider
  pub display_name : Str
  pub bucket : Option Str
  pub region : Option Str
  pub endpoint_host : Option Str
  pub path_style : Option Bool
  pub directory : Option Str
  pub durable : Bool

abbrev pub process_memory_backend : StorageBackend
process_memory_backend = record {
  kind = process_memory;
  provider = memory;
  display_name = display_name memory;
  bucket = none;
  region = none;
  endpoint_host = none;
  path_style = none;
  directory = none;
  durable = false;
}

abbrev pub filesystem_backend : Str → StorageBackend
filesystem_backend directory = record {
  kind = filesystem;
  provider = local_disk;
  display_name = display_name local_disk;
  bucket = none;
  region = none;
  endpoint_host = none;
  path_style = none;
  directory = some directory;
  durable = true;
}

abbrev pub object_store_backend : Str → Str → Option Str → Bool → StorageBackend
object_store_backend bucket region endpoint path_style =
    let provider = classify_object_store endpoint in
    record {
      kind = object_store;
      provider = provider;
      display_name = display_name provider;
      bucket = some bucket;
      region = some region;
      endpoint_host = host_of endpoint;
      path_style = some path_style;
      directory = none;
      durable = true;
    }

pub data StorageHealth : Type 0 where
  reachable : ℕ → StorageHealth
  unreachable : Str → StorageHealth
  unprobed : StorageHealth

pub record StorageUsage : Type 0 where
  pub artifact_count : ℕ
  pub total_bytes : ℕ
  pub largest_bytes : ℕ

pub record StorageLimits : Type 0 where
  pub max_artifact_bytes : ℕ
  pub max_buffered_artifact_bytes : ℕ

pub record StorageStatus : Type 0 where
  pub schema : Str
  pub backend : StorageBackend
  pub health : StorageHealth
  pub usage : StorageUsage
  pub limits : StorageLimits
  pub observed_at : Str

-- `StorageStatus::new`
abbrev pub storage_status :
    StorageBackend → StorageHealth → StorageUsage → StorageLimits → Str → StorageStatus
storage_status backend health usage limits observed_at = record {
  schema = str "zed.storage-status.v1";
  backend = backend;
  health = health;
  usage = usage;
  limits = limits;
  observed_at = observed_at;
}

pub data Reconciliation : Type 0 where
  consistent missing : Reconciliation
  divergent : Str → Reconciliation

pub record ObjectHead : Type 0 where
  pub size : Option ℕ
  pub sha256 : Option Str
  pub content_type : Option Str
  pub cache_control : Option Str
  pub last_modified : Option Str

pub record StorageObjectReport : Type 0 where
  pub schema : Str
  pub key : Str
  pub sha256 : Str
  pub recorded_bytes : ℕ
  pub stored_bytes : Option ℕ
  pub stored_sha256 : Option Str
  pub content_type : Option Str
  pub cache_control : Option Str
  pub last_modified : Option Str
  pub reconciliation : Reconciliation
  pub observed_at : Str

-- The store's size is known and another than the recorded one.
abbrev pub size_differs : ℕ → Option ℕ → Bool
size_differs recorded none = false
size_differs recorded (some stored) = not (stored == recorded)

abbrev pub digest_differs : Str → Option Str → Bool
digest_differs recorded none = false
digest_differs recorded (some stored) = not (eq_ignore_ascii_case stored recorded)

abbrev pub size_detail : ℕ → Option ℕ → Str
size_detail recorded none = []
size_detail recorded (some stored) =
    str "registry records " ++ decimal recorded ++ str " bytes; store reports " ++ decimal stored

unfoldable pub reconcile : ℕ → Str → Option ObjectHead → Reconciliation
unfolding eq_ignore_ascii_case decimal str
reconcile recorded_bytes recorded_sha256 none = missing
reconcile recorded_bytes recorded_sha256 (some head) =
    if size_differs recorded_bytes head.size
    then divergent (size_detail recorded_bytes head.size)
    else if digest_differs recorded_sha256 head.sha256
    then divergent (str "stored object digest metadata does not match the registry digest")
    else consistent

-- `ObjectHead::default()`
abbrev pub default_head : ObjectHead
default_head = record {
  size = none;
  sha256 = none;
  content_type = none;
  cache_control = none;
  last_modified = none;
}

abbrev pub or_default : Option ObjectHead → ObjectHead
or_default none = default_head
or_default (some head) = head

unfoldable pub object_report : Str → Str → ℕ → Option ObjectHead → Str → StorageObjectReport
unfolding reconcile
object_report key sha256 recorded_bytes head observed_at =
    let seen = or_default head in
    record {
      schema = str "zed.storage-object.v1";
      key = key;
      sha256 = sha256;
      recorded_bytes = recorded_bytes;
      stored_bytes = seen.size;
      stored_sha256 = seen.sha256;
      content_type = seen.content_type;
      cache_control = seen.cache_control;
      last_modified = seen.last_modified;
      reconciliation = reconcile recorded_bytes sha256 head;
      observed_at = observed_at;
    }

abbrev pub max_reason : ℕ
max_reason = 200

abbrev pub without_query : Str → Str
without_query s = before s (split_once s (str "?X-Amz-"))

abbrev pub or_unspecified : Str → Str
or_unspecified s = if is_empty s then str "storage backend reported an unspecified error" else s

unfoldable pub redact_backend_error : Str → Str
unfolding first_line trim split_once str
redact_backend_error error =
    or_unspecified (take max_reason (without_query (trim (first_line error))))
