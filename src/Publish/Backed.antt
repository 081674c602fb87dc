-- ===== src/Publish/Backed.antt =====
-- src/routes/publish.rs: the object of every recorded version is in the store.
use zed_api_server_rs.Prelude.{
  some, List, [], ◌∷◌, ◌++◌, length, All, All-append, All-append_left, ◌≡◌, refl, sym, subst,
}
use zed_api_server_rs.Text.{Str}
use zed_api_server_rs.Access.{ApiResult}
use zed_api_server_rs.ArtifactStore.{Blob, done}
use zed_api_server_rs.Publish.{
  VersionRow, Database, Storage, IsStorage, Library, Events, PublishRequest, PublishResponse,
}
use zed_api_server_rs.Publish.Checks.{Prepared}
use zed_api_server_rs.Publish.Release.{
  Tables, new_version, begun, put_artifact, put_aliases, alias_keys, publish,
}
use zed_api_server_rs.Publish.Steps.{Commits, Outcomes, release-Outcomes, Handled, publish-Handled}
use zed_api_server_rs.Publish.Vetting.{Shown, prepared-Shown}

module _ {S : Type 0} (storage : Storage S) (sha256_hex : Blob → Str) where
  -- The store has the object of a version, with its digest and its size.
  pub record Backed (store : S) (row : VersionRow) : Type 0 where
    pub blob : Blob
    pub stored : storage.find store row.artifact_key ≡ some blob
    pub digest : sha256_hex blob ≡ row.sha256
    pub size : length blob ≡ row.size

  -- A store that has every object of another one.
  abbrev pub Extends : S → S → Type 0
  Extends before after =
      (k : Str) (blob : Blob) → storage.find before k ≡ some blob → storage.find after k ≡ some blob

  All-Backed :
      (before after : S) (rows : List VersionRow)
      → Extends before after
      → All (Backed before) rows
      → All (Backed after) rows
  All-Backed before after [] extends h = tt
  All-Backed before after (row ∷ rows) extends (b, h) = (
    record {
      blob = b.blob;
      stored = extends row.artifact_key b.blob b.stored;
      digest = b.digest;
      size = b.size;
    },
    All-Backed before after rows extends h,
  )

module _ {S : Type 0} (storage : Storage S) (law : IsStorage storage) (lib : Library)
    (events : Events) (request : PublishRequest) (db : Database) (store : S)
    (backed : All
      (Backed storage lib.sha256_hex store)
      (db.versions ++ events.other_versions)) where
  put-Extends :
      (p : Prepared) → Extends storage lib.sha256_hex store (put_artifact storage lib p store).1
  put-Extends p k blob h =
      law.put_keeps store p.key p.artifact p.meta.format.content_type p.actual_sha k blob h

  aliases-Extend :
      (p : Prepared) (s : S)
      → Extends storage lib.sha256_hex s (put_aliases storage lib request p s)
  aliases-Extend p s k blob h =
      law.aliases_keep s (alias_keys storage lib request p) p.artifact p.meta.format.content_type
        p.actual_sha k blob h

  all-Extend :
      (p : Prepared)
      → Extends storage lib.sha256_hex store
          (put_aliases storage lib request p (put_artifact storage lib p store).1)
  all-Extend p k blob h = aliases-Extend p _ k blob (put-Extends p k blob h)

  committed-Backed :
      (p : Prepared)
      → Shown lib events db request p
      → (put_artifact storage lib p store).0 ≡ done tt
      → (after : Tables) → Commits lib events request p (begun events db) after
      → All
          (Backed storage lib.sha256_hex
            (put_aliases storage lib request p (put_artifact storage lib p store).1))
          after.versions
  committed-Backed p shown stored after commits =
      subst
        (All (
          Backed storage lib.sha256_hex
            (put_aliases storage lib request p (put_artifact storage lib p store).1)))
        (sym commits.versions_are)
        (All-append _ (db.versions ++ events.other_versions)
          (new_version events request p commits.pkg ∷ [])
          (All-Backed storage lib.sha256_hex store _ _ (all-Extend p) backed)
          (
            record {
              blob = p.artifact;
              stored = aliases-Extend p _ p.key p.artifact (
                  law.put_stores store p.key p.artifact p.meta.format.content_type p.actual_sha
                    stored);
              digest = sym shown.digest_is;
              size = refl;
            },
            tt,
          ))

  Outcomes-Backed :
      (p : Prepared)
      → Shown lib events db request p
      → (put_artifact storage lib p store).0 ≡ done tt
      → (result : ApiResult PublishResponse × Database) → Outcomes lib events request p db result
      → All
          (Backed storage lib.sha256_hex
            (put_aliases storage lib request p (put_artifact storage lib p store).1))
          result.1.versions
  Outcomes-Backed p shown stored _ (Outcomes.rolled_back e) =
      All-Backed storage lib.sha256_hex store _ _ (all-Extend p) backed
  Outcomes-Backed p shown stored _ (Outcomes.not_adopted e after commits h) =
      committed-Backed p shown stored after commits
  Outcomes-Backed p shown stored _ (Outcomes.published after commits h) =
      committed-Backed p shown stored after commits

-- A publication keeps every recorded version backed by its object, whatever its answer: the object
-- under the row's key has the recorded digest and size. The store keeps its objects, and the rows
-- that others commit meanwhile are backed as well.
pub publish-Backed :
    {S : Type 0} (storage : Storage S) (law : IsStorage storage) (lib : Library) (events : Events)
    (request : PublishRequest) (db : Database) (store : S)
    → All (Backed storage lib.sha256_hex store) (db.versions ++ events.other_versions)
    → All
        (Backed storage lib.sha256_hex (publish storage lib events request db store).2)
        (publish storage lib events request db store).1.versions
publish-Backed {S = S} storage law lib events request db store backed =
    elim (publish-Handled storage lib events request db store) [
      | Handled.refused e h same ↦ subst Good (sym same) old
      | Handled.unstored p e h k same ↦ subst Good (sym same) (
          All-Backed storage lib.sha256_hex store _ db.versions
            (put-Extends storage law lib events request db store backed p) old)
      | Handled.released p h k same ↦ subst Good (sym same) (
          Outcomes-Backed storage law lib events request db store backed p
            (prepared-Shown lib events db request p h) k _
            (release-Outcomes lib events request p db))
    ]
  where
    Good : ApiResult PublishResponse × Database × S → Type 0
    Good r = All (Backed storage lib.sha256_hex r.2) r.1.versions

    old : All (Backed storage lib.sha256_hex store) db.versions
    old = All-append_left _ db.versions events.other_versions backed
