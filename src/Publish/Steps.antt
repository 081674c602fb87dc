-- ===== src/Publish/Steps.antt =====
-- src/routes/publish.rs: the ways in which the transaction and the handler end.
use zed_api_server_rs.Prelude.{
  Bool, true, false, List, [], ◌∷◌, ◌++◌, if◌then◌else◌, any, ◌≡◌, refl, ap, sym, subst, ◌∙◌, ◌⊎◌,
  inl, inr,
}
use zed_api_server_rs.Audit.{record_entry}
use zed_api_server_rs.Access.{internal_error, ApiErr, ApiResult, ok, err, ◌>>=◌, database_error}
use zed_api_server_rs.ArtifactStore.{StoreErr, Outcome, done, failed}
use zed_api_server_rs.Publish.{
  PackageRow, VersionRow, Database, Storage, Library, Events, PublishRequest, PublishResponse,
}
use zed_api_server_rs.Publish.Checks.{Prepared, prepared, find_row, is_version}
use zed_api_server_rs.Publish.Release.{
  Tables, new_version, upsert_package, adopt, lost_race, insert_version, transaction, with_tables,
  begun, audit_entry, announce, release, put_artifact, put_aliases, publish_prepared, publish,
}

pub ApiResult-cases :
    {A : Type 0} (r : ApiResult A) → ((e : ApiErr) × (r ≡ err e)) ⊎ ((a : A) × (r ≡ ok a))
ApiResult-cases (err e) = inl (e, refl)
ApiResult-cases (ok a) = inr (a, refl)

abbrev refuse : ApiErr → ApiResult Unit
refuse o = err o

module _ (lib : Library) (events : Events) (request : PublishRequest) (p : Prepared) where
  -- A transaction that commits adds one version, under a key that was free.
  pub record Commits (tables after : Tables) : Type 0 where
    pub pkg : PackageRow
    pub packages : List PackageRow
    pub upserted : upsert_package events request p tables.packages ≡ ok (pkg, packages)
    pub free : any (is_version pkg.id request.version) tables.versions ≡ false
    pub packages_are : after.packages ≡ packages
    pub versions_are : after.versions ≡ tables.versions ++ new_version events request p pkg ∷ []

  -- It commits, or it is refused and nothing has changed.
  abbrev pub Ends : Tables → ApiResult Unit × Tables → Type 0
  Ends tables result =
      ((e : ApiErr) × (result ≡ (err e, tables))) ⊎ ((result.0 ≡ ok tt) × Commits tables result.1)

  lost_race-err :
      (pkg : PackageRow) (versions : List VersionRow)
      → (e : ApiErr) × (lost_race lib events request p pkg versions ≡ err e)
  unfolding lost_race
  lost_race-err pkg versions =
      refused (find_row events.recheck_fails (is_version pkg.id request.version) versions) _ _
    where
      refused :
          {A B : Type 0} (r : ApiResult A) (f : A → ApiResult B) (o : ApiErr)
          → (e : ApiErr) × ((r >>= (λ a. f a >>= (λ b. refuse o))) ≡ err e)
      refused (err e) f o = (e, refl)
      refused (ok a) f o = last (f a) o
        where
          last :
              {B : Type 0} (r : ApiResult B) (o : ApiErr)
              → (e : ApiErr) × ((r >>= (λ b. refuse o)) ≡ err e)
          last (err e) o = (e, refl)
          last (ok b) o = (o, refl)

  insert_version-Ends :
      (pkg : PackageRow) (packages : List PackageRow) (tables : Tables)
      → upsert_package events request p tables.packages ≡ ok (pkg, packages)
      → Ends tables (insert_version lib events request p pkg packages tables)
  unfolding insert_version
  insert_version-Ends pkg packages tables upserted =
      settle events.insert_fails (any (is_version pkg.id request.version) tables.versions)
        events.commit_fails refl
    where
      settle :
          (fails taken late : Bool)
          → any (is_version pkg.id request.version) tables.versions ≡ taken
          → Ends tables (
              if fails
              then (err database_error, tables)
              else if taken
              then (lost_race lib events request p pkg tables.versions, tables)
              else if late
              then (err database_error, tables)
              else (
                ok tt,
                record {
                  packages = packages;
                  versions = tables.versions ++ new_version events request p pkg ∷ [];
                },
              ))
      settle true taken late e = inl (database_error, refl)
      settle false true late e =
          let (o, h) = lost_race-err pkg tables.versions in inl (o, ap (λ r. (r, tables)) h)
      settle false false true e = inl (database_error, refl)
      settle false false false e = inr (
        refl,
        record {
          pkg = pkg;
          packages = packages;
          upserted = upserted;
          free = e;
          packages_are = refl;
          versions_are = refl;
        },
      )

  transaction_lem :
      (tables : Tables)
      → transaction lib events request p tables ≡ (
          if events.begin_fails
          then (err database_error, tables)
          else elim (upsert_package events request p tables.packages) [
            | err e ↦ (err e, tables)
            | ok (pkg, packages) ↦ insert_version lib events request p pkg packages tables
          ])
  unfolding transaction
  transaction_lem tables = refl

  pub transaction-Ends : (tables : Tables) → Ends tables (transaction lib events request p tables)
  transaction-Ends tables =
      subst (Ends tables) (sym (transaction_lem tables))
        (settle events.begin_fails (upsert_package events request p tables.packages) refl)
    where
      settle :
          (fails : Bool) (r : ApiResult (PackageRow × List PackageRow))
          → upsert_package events request p tables.packages ≡ r
          → Ends tables (
              if fails then (err database_error, tables) else elim r [
                | err e ↦ (err e, tables)
                | ok (pkg, packages) ↦ insert_version lib events request p pkg packages tables
              ])
      settle true r e = inl (database_error, refl)
      settle false (err o) e = inl (o, refl)
      settle false (ok (pkg, packages)) e = insert_version-Ends pkg packages tables e

  -- How the handler ends after the checks, from the committed rows and with the store it writes.
  pub data Outcomes (db : Database) : ApiResult PublishResponse × Database → Type 0 where
    rolled_back : (e : ApiErr) → Outcomes db (err e, with_tables db (begun events db))
    not_adopted :
        (e : ApiErr) (after : Tables)
        → Commits (begun events db) after
        → adopt lib events request p ≡ err e
        → Outcomes db (err e, with_tables db after)
    published :
        (after : Tables)
        → Commits (begun events db) after
        → adopt lib events request p ≡ ok tt
        → Outcomes db (
          ok (record {
            org = request.org_slug;
            name = request.name;
            version = request.version;
            sha256 = p.actual_sha;
          }),
          record (with_tables db after) {
            audit_log =
                (record_entry lib.chain events.attempts db.audit_log (audit_entry request p)).0;
          },
        )

  announce-Outcomes :
      (db : Database) (after : Tables)
      → Commits (begun events db) after
      → Outcomes db (announce lib events request p (with_tables db after))
  unfolding announce
  announce-Outcomes db after commits = settle (adopt lib events request p) refl
    where
      settle :
          (r : ApiResult Unit)
          → adopt lib events request p ≡ r
          → Outcomes db (elim r [
            | err e ↦ (err e, with_tables db after)
            | ok adopted ↦ (
              ok (record {
                org = request.org_slug;
                name = request.name;
                version = request.version;
                sha256 = p.actual_sha;
              }),
              record (with_tables db after) {
                audit_log =
                    (record_entry lib.chain events.attempts db.audit_log (audit_entry request p)).0;
              },
            )
          ])
      settle (err e) h = not_adopted e after commits h
      settle (ok u) h = published after commits h

  release_lem :
      (db : Database)
      → release lib events request p db
        ≡ (elim (transaction lib events request p (begun events db)).0 [
          | err e ↦ (err e, with_tables db (transaction lib events request p (begun events db)).1)
          | ok committed ↦
              announce lib events request p
                (with_tables db (transaction lib events request p (begun events db)).1)
        ])
  unfolding release
  release_lem db = refl

  pub release-Outcomes : (db : Database) → Outcomes db (release lib events request p db)
  release-Outcomes db = elim (transaction-Ends (begun events db)) [
    | inl (e, h) ↦ subst (Outcomes db) (sym (release_lem db ∙ ap settled h)) (rolled_back e)
    | inr (h, commits) ↦
        subst (Outcomes db)
          (sym (
            release_lem db
            ∙ ap (λ r. settled (r, (transaction lib events request p (begun events db)).1)) h))
          (announce-Outcomes db (transaction lib events request p (begun events db)).1 commits)
  ]
    where
      settled : ApiResult Unit × Tables → ApiResult PublishResponse × Database
      settled result = elim result.0 [
        | err e ↦ (err e, with_tables db result.1)
        | ok committed ↦ announce lib events request p (with_tables db result.1)
      ]

module _ {S : Type 0} (storage : Storage S) (lib : Library) (events : Events)
    (request : PublishRequest) (db : Database) (store : S) where
  -- How far the handler comes: the checks refuse, the object is not stored, or it goes on to the
  -- transaction.
  pub data Handled : Type 0 where
    refused :
        (e : ApiErr)
        → prepared lib events db request ≡ err e
        → publish storage lib events request db store ≡ (err e, db, store)
        → Handled
    unstored :
        (p : Prepared) (e : StoreErr)
        → prepared lib events db request ≡ ok p
        → (put_artifact storage lib p store).0 ≡ failed e
        → publish storage lib events request db store
          ≡ (err internal_error, db, (put_artifact storage lib p store).1)
        → Handled
    released :
        (p : Prepared)
        → prepared lib events db request ≡ ok p
        → (put_artifact storage lib p store).0 ≡ done tt
        → publish storage lib events request db store ≡ (
          (release lib events request p db).0,
          (release lib events request p db).1,
          put_aliases storage lib request p (put_artifact storage lib p store).1,
        )
        → Handled

  publish_lem :
      publish storage lib events request db store ≡ (elim (prepared lib events db request) [
        | err e ↦ (err e, db, store)
        | ok p ↦ publish_prepared storage lib events request p db store
      ])
  unfolding publish
  publish_lem = refl

  publish_prepared_lem :
      (p : Prepared)
      → publish_prepared storage lib events request p db store
        ≡ (elim (put_artifact storage lib p store).0 [
          | failed e ↦ (err internal_error, db, (put_artifact storage lib p store).1)
          | done stored ↦ (
            (release lib events request p db).0,
            (release lib events request p db).1,
            put_aliases storage lib request p (put_artifact storage lib p store).1,
          )
        ])
  unfolding publish_prepared
  publish_prepared_lem p = refl

  Outcome-cases : (r : Outcome Unit) → ((e : StoreErr) × (r ≡ failed e)) ⊎ (r ≡ done tt)
  Outcome-cases (failed e) = inl (e, refl)
  Outcome-cases (done u) = inr refl

  pub publish-Handled : Handled
  publish-Handled = elim (ApiResult-cases (prepared lib events db request)) [
    | inl (e, h) ↦ refused e h (publish_lem ∙ rw h)
    | inr (p, h) ↦ elim (Outcome-cases (put_artifact storage lib p store).0) [
      | inl (e, k) ↦ unstored p e h k (publish_lem ∙ rw h (publish_prepared_lem p ∙ rw k))
      | inr k ↦ released p h k (publish_lem ∙ rw h (publish_prepared_lem p ∙ rw k))
    ]
  ]
