-- ===== src/Publish/Release.antt =====
-- src/routes/publish.rs: the changes of a publication: the object, the transaction, the audit record.
use zed_api_server_rs.Prelude.{
  ℕ, ◌+◌, ◌-◌, ◌^◌, min, false, none, some, List, [], ◌∷◌, ◌++◌, map, if◌then◌else◌, ◌==◌, any,
  length,
}
use zed_api_server_rs.Text.{Str, str, str_eq}
use zed_api_server_rs.Audit.{Entry, record_entry}
use zed_api_server_rs.Access.{
  internal_error, ApiErr, ApiResult, ok, err, ◌>>=◌, internal_server_error_500, database_error, one,
}
use zed_api_server_rs.ArtifactStore.{Outcome, done, failed}
use zed_api_server_rs.ArtifactStore.Keys.{guessable_alias_keys}
use zed_api_server_rs.Publish.{
  PackageRow, VersionRow, Database, Storage, Library, Events, PublishRequest, PublishResponse,
}
use zed_api_server_rs.Publish.Checks.{
  subject, Prepared, prepared, find_row, is_package, is_version, version_exists,
  legacy_version_matches, adopt_canonical_publish,
}

-- The two tables of the transaction.
pub record Tables : Type 0 where
  pub packages : List PackageRow
  pub versions : List VersionRow

-- A package that is published for the first time.
abbrev pub new_package : Events → PublishRequest → Prepared → PackageRow
new_package events request p = record {
  id = events.package_id;
  org_id = p.org_row.id;
  name = request.name;
  description = p.meta.pkg.description;
  vcs = p.meta.pkg.vcs;
  repo_url = p.meta.pkg.repo_url;
  version_scheme = p.meta.pkg.version_scheme;
  tags = p.meta.pkg.keywords;
  created_at = request.now;
  index_sequence = 1;
  signed_index = none;
}

-- The columns that a later publication updates.
abbrev pub updated_package : Prepared → PackageRow → PackageRow
updated_package p row = record row {
  description = p.meta.pkg.description;
  vcs = p.meta.pkg.vcs;
  repo_url = p.meta.pkg.repo_url;
  version_scheme = p.meta.pkg.version_scheme;
  tags = p.meta.pkg.keywords;
}

-- `INSERT … ON CONFLICT (org_id, name) DO UPDATE`
unfoldable pub upsert_rows : Events → PublishRequest → Prepared → List PackageRow → List PackageRow
unfolding str_eq
upsert_rows events request p rows = elim (one (is_package p.org_row request.name) rows) [
  | none ↦ rows ++ new_package events request p ∷ []
  | some found ↦
      map (λ row. if is_package p.org_row request.name row then updated_package p row else row) rows
]

-- `saturating_add(1).max(1)` on an `i64` that is not negative
unfoldable pub next_sequence : ℕ → ℕ
next_sequence n = min (n + 1) (2 ^ 63 - 1)

abbrev pub bump : ℕ → ℕ → List PackageRow → List PackageRow
bump id next rows =
    map (λ row. if row.id == id then record row { index_sequence = next } else row) rows

unfoldable pub upsert_missing : ApiErr
unfolding str
upsert_missing = record {
  status = internal_server_error_500;
  code = str "package_upsert_missing";
  message = str "package row missing immediately after upsert";
}

-- `upsert_package`: the row, with its new sequence number, and the rows of the transaction.
unfoldable pub upsert_package :
    Events → PublishRequest → Prepared → List PackageRow → ApiResult (PackageRow × List PackageRow)
unfolding upsert_rows next_sequence upsert_missing str_eq
upsert_package events request p rows =
    if events.upsert_fails
    then err database_error
    else elim (one (is_package p.org_row request.name) (upsert_rows events request p rows)) [
      | none ↦ err upsert_missing
      | some row ↦ ok (
        record row { index_sequence = next_sequence row.index_sequence },
        bump row.id (next_sequence row.index_sequence) (upsert_rows events request p rows),
      )
    ]

abbrev pub new_version : Events → PublishRequest → Prepared → PackageRow → VersionRow
new_version events request p pkg = record {
  id = events.version_id;
  package_id = pkg.id;
  version = request.version;
  sha256 = p.actual_sha;
  size = length p.artifact;
  format = p.meta.format.extension;
  vcs_tag = p.meta.vcs_tag;
  vcs_commit = p.meta.vcs_commit;
  artifact_key = p.key;
  yanked = false;
  published_at = p.published_at;
  mirrors = p.stored_mirrors;
  signatures = p.stored_signatures;
}

module _ (lib : Library) (events : Events) (request : PublishRequest) (p : Prepared) where
  abbrev pub adopt : ApiResult Unit
  adopt =
      adopt_canonical_publish lib request p.org_row p.meta p.actual_sha (length p.artifact) p.key

  -- Another publication of the version has been committed since the checks.
  unfoldable pub lost_race : PackageRow → List VersionRow → ApiResult Unit
  unfolding legacy_version_matches adopt_canonical_publish str_eq str
  lost_race pkg versions = do
    existing ← find_row events.recheck_fails (is_version pkg.id request.version) versions
    adopted ← elim existing [
      | none ↦ ok tt
      | some row ↦
          if legacy_version_matches row p.meta p.actual_sha (length p.artifact) p.key
          then adopt
          else ok tt
    ]
    err (version_exists (subject request ++ str " is already published; versions are immutable"))

  -- The insert under the unique index, and the commit.
  unfoldable pub insert_version : PackageRow → List PackageRow → Tables → ApiResult Unit × Tables
  unfolding lost_race str_eq
  insert_version pkg packages tables =
      if events.insert_fails
      then (err database_error, tables)
      else if any (is_version pkg.id request.version) tables.versions
      then (lost_race pkg tables.versions, tables)
      else if events.commit_fails
      then (err database_error, tables)
      else (
        ok tt,
        record {
          packages = packages;
          versions = tables.versions ++ new_version events request p pkg ∷ [];
        },
      )

  -- The transaction, from the rows that are committed when it begins.
  unfoldable pub transaction : Tables → ApiResult Unit × Tables
  unfolding upsert_package insert_version
  transaction tables =
      if events.begin_fails
      then (err database_error, tables)
      else elim (upsert_package events request p tables.packages) [
        | err e ↦ (err e, tables)
        | ok (pkg, packages) ↦ insert_version pkg packages tables
      ]

abbrev pub with_tables : Database → Tables → Database
with_tables db tables = record db { packages = tables.packages; versions = tables.versions }

-- The rows after the others have committed.
abbrev pub begun : Events → Database → Tables
begun events db = record {
  packages = db.packages ++ events.other_packages;
  versions = db.versions ++ events.other_versions;
}

abbrev pub audit_entry : PublishRequest → Prepared → Entry
audit_entry request p = record {
  org_id = p.org_row.id;
  token = p.token;
  action = str "publish";
  subject = subject request;
  detail = some (str "sha256=" ++ p.actual_sha);
  id = 0;
  now = 0;
}

-- What follows the commit: the canonical plane, the audit record, and the answer.
unfoldable pub announce :
    Library → Events → PublishRequest → Prepared → Database → ApiResult PublishResponse × Database
unfolding adopt_canonical_publish record_entry
announce lib events request p db = elim (adopt lib events request p) [
  | err e ↦ (err e, db)
  | ok adopted ↦ (
    ok (record {
      org = request.org_slug;
      name = request.name;
      version = request.version;
      sha256 = p.actual_sha;
    }),
    record db {
      audit_log = (record_entry lib.chain events.attempts db.audit_log (audit_entry request p)).0;
    },
  )
]

-- The transaction and what follows it.
unfoldable pub release :
    Library → Events → PublishRequest → Prepared → Database → ApiResult PublishResponse × Database
unfolding transaction announce
release lib events request p db =
    let (answer, tables) = transaction lib events request p (begun events db) in
    elim answer [
      | err e ↦ (err e, with_tables db tables)
      | ok committed ↦ announce lib events request p (with_tables db tables)
    ]

module _ {S : Type 0} (storage : Storage S) (lib : Library) where
  abbrev pub alias_keys : PublishRequest → Prepared → List Str
  alias_keys request p =
      guessable_alias_keys request.org_slug request.name request.version p.meta.vcs_tag
        p.meta.format.extension p.meta.pkg.repo_url

  abbrev pub put_artifact : Prepared → S → Outcome Unit × S
  put_artifact p store =
      storage.put_verified store p.key p.artifact p.meta.format.content_type p.actual_sha

  -- The aliases: a failure is only logged.
  abbrev pub put_aliases : PublishRequest → Prepared → S → S
  put_aliases request p store =
      (storage.put_public_aliases store (alias_keys request p) p.artifact p.meta.format.content_type
        p.actual_sha).1

  -- The changes of a publication that has passed the checks.
  unfoldable pub publish_prepared :
      Events → PublishRequest → Prepared → Database → S → ApiResult PublishResponse × Database × S
  unfolding release internal_error guessable_alias_keys
  publish_prepared events request p db store = elim (put_artifact p store).0 [
    | failed e ↦ (err internal_error, db, (put_artifact p store).1)
    | done stored ↦ (
      (release lib events request p db).0,
      (release lib events request p db).1,
      put_aliases request p (put_artifact p store).1,
    )
  ]

  unfoldable pub publish :
      Events → PublishRequest → Database → S → ApiResult PublishResponse × Database × S
  unfolding prepared publish_prepared
  publish events request db store = elim (prepared lib events db request) [
    | err e ↦ (err e, db, store)
    | ok p ↦ publish_prepared events request p db store
  ]
