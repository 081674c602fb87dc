-- ===== src/Publish.antt =====
-- src/routes/publish.rs: the rows, the request, and what the handler takes from other libraries. The
-- checks are in Checks, the form in Multipart, the changes in Release.
use zed_api_server_rs.Prelude.{ℕ, Bool, true, false, ◌&&◌, Option, none, some, List, ◌⊎◌, ◌≡◌, ◌==◌}
use zed_api_server_rs.Text.{Str, str, str_eq}
use zed_api_server_rs.Audit.{AuditRow, Attempt, ChainLibrary, Token}
use zed_api_server_rs.Access.{ApiResult}
use zed_api_server_rs.Yank.{OrgRow}
use zed_api_server_rs.ArtifactStore.{Blob, Outcome, done}
use zed_api_server_rs.Verify.{Signature, KeyState, PublisherKey, KeyRow, TagPolicy, Response}
pub mod Multipart
pub mod Form
pub mod Checks
pub mod Release
pub mod Steps
pub mod Vetting
pub mod Immutable
pub mod Backed
pub mod Refusals
pub mod Commits
pub mod Memory
mod Tests

pub record PackageRow : Type 0 where
  pub id : ℕ
  pub org_id : ℕ
  pub name : Str
  pub description : Option Str
  pub vcs : Str
  pub repo_url : Str
  pub version_scheme : Str
  pub tags : List Str
  pub created_at : ℕ
  pub index_sequence : ℕ
  pub signed_index : Option Str

pub record VersionRow : Type 0 where
  pub id : ℕ
  pub package_id : ℕ
  pub version : Str
  pub sha256 : Str
  pub size : ℕ
  pub format : Str
  pub vcs_tag : Str
  pub vcs_commit : Option Str
  pub artifact_key : Str
  pub yanked : Bool
  pub published_at : ℕ
  pub mirrors : Str
  pub signatures : Str

pub record Database : Type 0 where
  pub tokens : List Token
  pub orgs : List OrgRow
  pub keys : List KeyRow
  pub packages : List PackageRow
  pub versions : List VersionRow
  pub audit_log : List AuditRow

-- The `package` of a manifest; `vcs` is in the text that is stored.
pub record ManifestPackage : Type 0 where
  pub org : Str
  pub name : Str
  pub version : Str
  pub description : Option Str
  pub vcs : Str
  pub uses_git_tags : Bool
  pub repo_url : Str
  pub version_scheme : Str
  pub keywords : List Str

-- An archive format, by its extension and content type.
pub record Format : Type 0 where
  pub extension : Str
  pub content_type : Str

-- `PublishMeta`; `rest` stands for the parts of the manifest that the handler only passes on.
pub record PublishMeta : Type 0 where
  pub pkg : ManifestPackage
  pub rest : Str
  pub sha256 : Str
  pub size : ℕ
  pub format : Format
  pub vcs_tag : Str
  pub vcs_commit : Option Str
  pub published_at : Option Str
  pub signatures : List Signature
  pub mirrors : List Str

-- `VersionAttestationV1`, the payload that publishers sign.
pub record VersionAttestation : Type 0 where
  pub org : Str
  pub name : Str
  pub version : Str
  pub sha256 : Str
  pub size : ℕ
  pub format : Format
  pub vcs_tag : Str
  pub vcs_commit : Str
  pub published_at : Str
  pub mirrors : List Str

-- `MachinePublishInput`, with the fields that vary.
pub record MachinePublishInput : Type 0 where
  pub org_slug : Str
  pub org_name : Str
  pub pkg : ManifestPackage
  pub rest : Str
  pub sha256 : Str
  pub size_bytes : ℕ
  pub format : Str
  pub vcs_tag : Str
  pub vcs_commit : Option Str
  pub artifact_key : Str
  pub user_agent : Option Str

-- One step of the multipart stream: an error, or a field with its name and what reading it as a text
-- or as bytes gives. The text of an error is on the left.
pub data Part : Type 0 where
  broken : Str → Part
  field : Option Str → Str ⊎ Str → Str ⊎ Blob → Part

-- The store as the handler uses it, and what every store keeps to: an object that is there stays
-- there, and a write that succeeds leaves its bytes under its key.
pub record Storage (S : Type 0) : Type 0 where
  pub put_verified : S → Str → Blob → Str → Str → Outcome Unit × S
  pub put_public_aliases : S → List Str → Blob → Str → Str → Outcome Unit × S
  pub find : S → Str → Option Blob

pub record IsStorage {S : Type 0} (storage : Storage S) : Type 0 where
  pub put_keeps :
      (store : S) (key : Str) (blob : Blob) (content_type sha256 k : Str) (other : Blob)
      → storage.find store k ≡ some other
      → storage.find (storage.put_verified store key blob content_type sha256).1 k ≡ some other
  pub put_stores :
      (store : S) (key : Str) (blob : Blob) (content_type sha256 : Str)
      → (storage.put_verified store key blob content_type sha256).0 ≡ done tt
      → storage.find (storage.put_verified store key blob content_type sha256).1 key ≡ some blob
  pub aliases_keep :
      (store : S) (keys : List Str) (blob : Blob) (content_type sha256 k : Str) (other : Blob)
      → storage.find store k ≡ some other
      → storage.find (storage.put_public_aliases store keys blob content_type sha256).1 k
        ≡ some other

-- Other code that the handler calls. `verify_publish` is the check of binary archives, with the
-- text of its error; `adopt` is there when the canonical write context is.
pub record Library : Type 0 where
  pub sha256_hex : Blob → Str
  pub hash_token : Str → Str
  pub chain : ChainLibrary
  pub meta_field : Str
  pub artifact_field : Str
  pub parse_meta : Str → Str ⊎ PublishMeta
  pub validate : PublishMeta → Option Str
  pub verify_publish : PublishMeta → Blob → Option Str
  pub encode : Str → Str
  pub get : Str → Response
  pub preimage : VersionAttestation → Str ⊎ Blob
  pub algorithm : Str
  pub verifies : KeyState → Bool
  pub verify_one : Blob → Signature → PublisherKey → Bool
  pub parse_rfc3339 : Str → Option ℕ
  pub to_rfc3339 : ℕ → Str
  pub encode_mirrors : List Str → Str ⊎ Str
  pub encode_signatures : List Signature → Str ⊎ Str
  pub adopt : Option (MachinePublishInput → ApiResult Unit)

-- Which statement a database error ends, the identifiers that are drawn, the rows that other
-- publications commit between the checks and the transaction, and what befalls the audit record.
pub record Events : Type 0 where
  pub find_token_fails : Bool
  pub find_org_fails : Bool
  pub load_keys_fails : Bool
  pub find_package_fails : Bool
  pub find_version_fails : Bool
  pub begin_fails : Bool
  pub upsert_fails : Bool
  pub insert_fails : Bool
  pub commit_fails : Bool
  pub recheck_fails : Bool
  pub package_id : ℕ
  pub version_id : ℕ
  pub other_packages : List PackageRow
  pub other_versions : List VersionRow
  pub attempts : List Attempt

pub record PublishRequest : Type 0 where
  pub org_slug : Str
  pub name : Str
  pub version : Str
  pub authorization : Option Str
  pub user_agent : Option Str
  pub parts : List Part
  pub policy : TagPolicy
  pub now : ℕ

pub record PublishResponse : Type 0 where
  pub org : Str
  pub name : Str
  pub version : Str
  pub sha256 : Str
