-- ===== src/Publish/Checks.antt =====
-- src/routes/publish.rs: what a publication must pass before anything changes.
use zed_api_server_rs.Prelude.{
  ℕ, Bool, true, false, ◌&&◌, ◌||◌, Option, none, some, List, [], ◌++◌, if◌then◌else◌, ◌==◌, leb,
  length, all, is_empty, ◌⊎◌, inl, inr,
}
use zed_api_server_rs.Text.{Str, str, str_eq, bytes, decimal, to_ascii_lowercase, is_ascii_digit}
use zed_api_server_rs.Audit.{Token}
use zed_api_server_rs.Access.{
  internal_error, ApiErr, ApiResult, ok, err, ◌>>=◌, not_found_404, bad_request, conflict,
  service_unavailable, database_error, parse, authorize_publish, one, query, require_token,
}
use zed_api_server_rs.Yank.{OrgRow}
use zed_api_server_rs.ArtifactStore.{Blob}
use zed_api_server_rs.ArtifactStore.Keys.{artifact_key}
use zed_api_server_rs.Verify.{TagCheck, skipped, verified, missing, load_keys, verify_any, verify}
use zed_api_server_rs.Publish.{
  PackageRow, VersionRow, Database, ManifestPackage, PublishMeta, VersionAttestation, Library,
  Events, PublishRequest,
}
use zed_api_server_rs.Publish.Multipart.{read_multipart}

abbrev pub or_empty : Option Str → Str
or_empty none = []
or_empty (some s) = s

-- `{org}/{name}@{version}`
abbrev pub subject : PublishRequest → Str
subject request = request.org_slug ++ str "/" ++ request.name ++ str "@" ++ request.version

unfoldable pub org_not_found : Str → ApiErr
unfolding str
org_not_found org_slug = record {
  status = not_found_404;
  code = str "org_not_found";
  message =
      str "org `"
      ++ org_slug
      ++ str "` does not exist; claim it first with `zed org claim "
      ++ org_slug
      ++ str "`";
}

-- The first three answers of the handler: the token, the organisation, and whether it may publish.
unfoldable pub authorized :
    Library → Events → Database → PublishRequest → ApiResult (Token × OrgRow)
unfolding require_token parse authorize_publish str_eq org_not_found
authorized lib events db request = do
  token ←
      require_token lib.hash_token request.now events.find_token_fails db.tokens
        request.authorization
  org_row ←
      query events.find_org_fails (one (λ o. str_eq o.slug request.org_slug) db.orgs)
        (org_not_found request.org_slug)
  allowed ← authorize_publish token.org_id (parse token.role) org_row.id
  ok (token, org_row)

-- `is_ascii_hexdigit`
abbrev pub is_hexdigit : ℕ → Bool
is_hexdigit c = is_ascii_digit c || (leb b'a' c && leb c b'f' || leb b'A' c && leb c b'F')

-- A commit of 40 or 64 hexadecimal digits, in lower case.
unfoldable pub canonical : Str → Option Str
unfolding bytes to_ascii_lowercase is_ascii_digit
canonical value =
    if (length (bytes value) == 40 || length (bytes value) == 64) && all is_hexdigit (bytes value)
    then some (to_ascii_lowercase value)
    else none

abbrev pub same_commit : Option Str → Option Str → Bool
same_commit none b = false
same_commit (some a) none = false
same_commit (some a) (some b) = str_eq a b

abbrev pub vcs_commit_mismatch : Str → ApiErr
vcs_commit_mismatch message = bad_request (str "vcs_commit_mismatch") message

unfoldable pub validate_verified_vcs_commit : Option Str → Option Str → ApiResult Unit
unfolding canonical str_eq str
validate_verified_vcs_commit none found = ok tt
validate_verified_vcs_commit (some declared) none = err (
    vcs_commit_mismatch (
      str
        "publish metadata declares a VCS commit, but the verified tag did not resolve directly to a commit"))
validate_verified_vcs_commit (some declared) (some found) =
    if same_commit (canonical declared) (canonical found)
    then ok tt
    else err (
        vcs_commit_mismatch (
          str "publish metadata declares VCS commit `"
          ++ declared
          ++ str "`, but tag verification resolved `"
          ++ found
          ++ str "`"))

abbrev pub ensure : Bool → ApiErr → ApiResult Unit
ensure true e = ok tt
ensure false e = err e

abbrev pub no_error : Str → Option Str → ApiResult Unit
no_error code none = ok tt
no_error code (some message) = err (bad_request code message)

unfoldable pub names_match : ManifestPackage → PublishRequest → Bool
unfolding str_eq
names_match m request =
    str_eq m.org request.org_slug
    && (str_eq m.name request.name && str_eq m.version request.version)

-- The answer of the tag check, an error of its request being internal.
unfoldable pub tag_accepted : PublishMeta → Option TagCheck → ApiResult Unit
unfolding validate_verified_vcs_commit internal_error str
tag_accepted meta none = err internal_error
tag_accepted meta (some skipped) = ok tt
tag_accepted meta (some missing) = err (
    bad_request (str "tag_not_found") (
      str "tag `"
      ++ meta.vcs_tag
      ++ str "` not found on "
      ++ meta.pkg.repo_url
      ++ str "; authors must tag the backing repo before publishing"))
tag_accepted meta (some (verified commit)) = validate_verified_vcs_commit meta.vcs_commit commit

-- The manifest, the digest, the size, the archive and the tag.
unfoldable pub validated : Library → PublishRequest → PublishMeta → Blob → ApiResult Unit
unfolding names_match str_eq decimal verify tag_accepted str
validated lib request meta artifact = do
  manifest ← no_error (str "invalid_manifest") (lib.validate meta)
  named ← ensure (names_match meta.pkg request) (
      bad_request (str "manifest_url_mismatch") (
        str "manifest says "
        ++ meta.pkg.org
        ++ str "/"
        ++ meta.pkg.name
        ++ str "@"
        ++ meta.pkg.version
        ++ str ", url says "
        ++ subject request))
  digest ← ensure (str_eq (lib.sha256_hex artifact) meta.sha256) (
      bad_request (str "sha256_mismatch") (
        str "client declared "
        ++ meta.sha256
        ++ str ", server computed "
        ++ lib.sha256_hex artifact))
  size ← ensure (length artifact == meta.size) (
      bad_request (str "artifact_size_mismatch") (
        str "client declared "
        ++ decimal meta.size
        ++ str " bytes, server received "
        ++ decimal (length artifact)))
  archive ← no_error (str "invalid_binary_artifact") (lib.verify_publish meta artifact)
  tag_accepted meta (
      verify lib.encode lib.get request.policy meta.pkg.uses_git_tags meta.pkg.repo_url
        meta.vcs_tag)

-- The publisher's own time, or the server's when there is none.
unfoldable pub published_time : Library → ℕ → Option Str → ApiResult ℕ
unfolding str
published_time lib now none = ok now
published_time lib now (some raw) = elim (lib.parse_rfc3339 raw) [
  | none ↦
      err (
        bad_request (str "invalid_published_at") (str "published_at must be an RFC 3339 timestamp"))
  | some at ↦ ok at
]

abbrev pub attestation : Library → PublishRequest → PublishMeta → Blob → ℕ → VersionAttestation
attestation lib request meta artifact published_at = record {
  org = request.org_slug;
  name = request.name;
  version = request.version;
  sha256 = lib.sha256_hex artifact;
  size = length artifact;
  format = meta.format;
  vcs_tag = meta.vcs_tag;
  vcs_commit = or_empty meta.vcs_commit;
  published_at = elim meta.published_at [ none ↦ lib.to_rfc3339 published_at | some raw ↦ raw ];
  mirrors = meta.mirrors;
}

-- A publication with signatures needs one by a key of the organisation. What the error says of the
-- last signature is left out.
unfoldable pub signed :
    Library → Events → Database → OrgRow → PublishMeta → VersionAttestation → ApiResult Unit
unfolding load_keys verify_any str
signed lib events db org_row meta payload =
    if is_empty meta.signatures then ok tt else elim (lib.preimage payload) [
      | inl e ↦ err (
          bad_request (str "invalid_signature")
            (str "cannot reconstruct the signed payload: " ++ e))
      | inr preimage ↦
          if events.load_keys_fails
          then err database_error
          else elim (verify_any lib.algorithm lib.verifies lib.verify_one preimage meta.signatures
              (load_keys db.keys org_row.id)) [
                | none ↦ err (
                    bad_request (str "signature_invalid")
                      (str "no enrolled key verifies this publication"))
                | some key ↦ ok tt
              ]
    ]

abbrev pub encoded : Str → Str → Str ⊎ Str → ApiResult Str
encoded code what (inl e) = err (bad_request code (what ++ str " set is not encodable: " ++ e))
encoded code what (inr text) = ok text

abbrev pub same_option : Option Str → Option Str → Bool
same_option none none = true
same_option none (some b) = false
same_option (some a) none = false
same_option (some a) (some b) = str_eq a b

unfoldable pub legacy_version_matches : VersionRow → PublishMeta → Str → ℕ → Str → Bool
unfolding str_eq
legacy_version_matches existing meta actual_sha artifact_len key =
    str_eq existing.sha256 actual_sha
    && (existing.size == artifact_len
        && (str_eq existing.format meta.format.extension
            && (str_eq existing.vcs_tag meta.vcs_tag
                && (same_option existing.vcs_commit meta.vcs_commit
                    && str_eq existing.artifact_key key))))

unfoldable pub adopt_canonical_publish :
    Library → PublishRequest → OrgRow → PublishMeta → Str → ℕ → Str → ApiResult Unit
unfolding str
adopt_canonical_publish lib request org_row meta actual_sha artifact_len key = elim lib.adopt [
  | none ↦ err (
      service_unavailable (str "registry_data_plane_unavailable")
        (str "canonical registry write context is not configured"))
  | some adopt ↦ adopt (record {
    org_slug = meta.pkg.org;
    org_name = org_row.slug;
    pkg = meta.pkg;
    rest = meta.rest;
    sha256 = actual_sha;
    size_bytes = artifact_len;
    format = meta.format.extension;
    vcs_tag = meta.vcs_tag;
    vcs_commit = meta.vcs_commit;
    artifact_key = key;
    user_agent = request.user_agent;
  })
]

-- `.one()`, which a database error may end.
abbrev pub find_row : {A : Type 0} → Bool → (A → Bool) → List A → ApiResult (Option A)
find_row true keeps rows = err database_error
find_row false keeps rows = ok (one keeps rows)

abbrev pub is_package : OrgRow → Str → PackageRow → Bool
is_package org_row name row = row.org_id == org_row.id && str_eq row.name name

abbrev pub is_version : ℕ → Str → VersionRow → Bool
is_version package_id version row = row.package_id == package_id && str_eq row.version version

abbrev pub version_exists : Str → ApiErr
version_exists message = conflict (str "version_exists") message

-- A version that is there is a conflict, whether it is the same publication again or another one; the
-- former brings the canonical plane up to date first.
unfoldable pub existing_version :
    Library
    → PublishRequest
    → OrgRow
    → PublishMeta
    → Str
    → ℕ
    → Str
    → Option VersionRow
    → ApiResult Unit
unfolding legacy_version_matches adopt_canonical_publish str
existing_version lib request org_row meta actual_sha artifact_len key none = ok tt
existing_version lib request org_row meta actual_sha artifact_len key (some existing) =
    if legacy_version_matches existing meta actual_sha artifact_len key
    then adopt_canonical_publish lib request org_row meta actual_sha artifact_len key
      >>= (λ adopted. err (
          version_exists
            (subject request ++ str " is already published; canonical projection reconciled")))
    else err (
        version_exists
          (subject request ++ str " is already published with different immutable facts"))

-- The lookups before any change.
unfoldable pub immutable :
    Library
    → Events
    → Database
    → PublishRequest
    → OrgRow
    → PublishMeta
    → Str
    → ℕ
    → Str
    → ApiResult Unit
unfolding str_eq existing_version
immutable lib events db request org_row meta actual_sha artifact_len key = do
  pkg ← find_row events.find_package_fails (is_package org_row request.name) db.packages
  elim pkg [
    | none ↦ ok tt
    | some row ↦ do
      existing ← find_row events.find_version_fails (is_version row.id request.version) db.versions
      existing_version lib request org_row meta actual_sha artifact_len key existing
  ]

-- What a publication that passes every check brings to the changes.
pub record Prepared : Type 0 where
  pub token : Token
  pub org_row : OrgRow
  pub meta : PublishMeta
  pub artifact : Blob
  pub actual_sha : Str
  pub key : Str
  pub published_at : ℕ
  pub stored_mirrors : Str
  pub stored_signatures : Str

unfoldable pub assemble : Library → Token × OrgRow → PublishMeta × Blob → ℕ → Str → Str → Prepared
unfolding artifact_key
assemble lib who form published_at stored_mirrors stored_signatures = record {
  token = who.0;
  org_row = who.1;
  meta = form.0;
  artifact = form.1;
  actual_sha = lib.sha256_hex form.1;
  key = artifact_key (lib.sha256_hex form.1) form.0.format.extension;
  published_at = published_at;
  stored_mirrors = stored_mirrors;
  stored_signatures = stored_signatures;
}

-- Everything before the first change.
unfoldable pub prepared : Library → Events → Database → PublishRequest → ApiResult Prepared
unfolding authorized read_multipart validated artifact_key published_time signed immutable assemble
prepared lib events db request = do
  who ← authorized lib events db request
  form ← read_multipart lib.meta_field lib.artifact_field lib.parse_meta request.parts
  valid ← validated lib request form.0 form.1
  published_at ← published_time lib request.now form.0.published_at
  attested ← signed lib events db who.1 form.0 (attestation lib request form.0 form.1 published_at)
  stored_mirrors ←
      encoded (str "invalid_mirrors") (str "mirror") (lib.encode_mirrors form.0.mirrors)
  stored_signatures ←
      encoded (str "invalid_signature") (str "signature") (lib.encode_signatures form.0.signatures)
  fresh ←
      immutable lib events db request who.1 form.0 (lib.sha256_hex form.1) (length form.1)
        (artifact_key (lib.sha256_hex form.1) form.0.format.extension)
  ok (assemble lib who form published_at stored_mirrors stored_signatures)
