-- ===== src/ArtifactStore/Local.antt =====
-- src/storage.rs: the local backend, a directory of files. Every call of the file system may fail,
-- and another process may write between the first look at a path and the promotion.
use zed_api_server_rs.Prelude.{
  Bool, true, false, Option, none, some, List, [], ◌∷◌, ◌++◌, if◌then◌else◌, ◌==◌, length,
}
use zed_api_server_rs.Text.{Str, str_eq, rsplit_once_char}
use zed_api_server_rs.ArtifactStore.{
  Blob, Outcome, done, failed, backend_error, different_content, no_parent, ExpectedArtifact,
  stream_matches,
}

pub data Node : Type 0 where
  file : Blob → Node
  directory : Node

abbrev pub Files : Type 0
Files = List (Str × Node)

unfoldable pub lookup : Str → Files → Option Node
unfolding str_eq
lookup path [] = none
lookup path ((p, node) ∷ files) = if str_eq p path then some node else lookup path files

unfoldable pub remove : Str → Files → Files
unfolding str_eq
remove path [] = []
remove path ((p, node) ∷ files) =
    if str_eq p path then remove path files else (p, node) ∷ remove path files

-- Which calls fail, what a failed staging leaves behind, how the reader cuts a file, the name of
-- the staging file, and the files that others add, at new paths, before the promotion.
pub record LocalWorld : Type 0 where
  pub metadata_fails : Bool
  pub create_dir_fails : Bool
  pub staging_fails : Bool
  pub partial : Option Blob
  pub link_fails : Bool
  pub recheck_fails : Bool
  pub remove_fails : Bool
  pub sync_fails : Bool
  pub reads : Blob → List Blob
  pub temporary : Str
  pub others : Files

module _ (sha256_hex : Blob → Str) where
  -- `local_object_matches`
  unfoldable pub local_object_matches :
      Bool → (Blob → List Blob) → Files → Str → ExpectedArtifact → Outcome (Option Bool)
  unfolding lookup stream_matches
  local_object_matches true reads files path expected = failed backend_error
  local_object_matches false reads files path expected = elim (lookup path files) [
    | none ↦ done none
    | some directory ↦ done (some false)
    | some (file blob) ↦ elim (length blob == expected.len) [
      | false ↦ done (some false)
      | true ↦ elim (stream_matches sha256_hex expected (reads blob)) [
        | failed e ↦ failed e
        | done matches ↦ done (some matches)
      ]
    ]
  ]

  -- What the write reports when the path was taken before the promotion.
  abbrev pub after_race : Outcome (Option Bool) → Outcome Unit
  after_race (failed e) = failed e
  after_race (done none) = failed backend_error
  after_race (done (some false)) = failed different_content
  after_race (done (some true)) = done tt

  -- `hard_link`: the path gets the staged bytes unless something is there.
  unfoldable pub promote : LocalWorld → Files → Str → Blob → ExpectedArtifact → Outcome Unit × Files
  unfolding lookup local_object_matches
  promote world files path blob expected =
      if world.link_fails then (failed backend_error, files) else elim (lookup path files) [
        | none ↦ (done tt, (path, file blob) ∷ files)
        | some node ↦ (
          after_race (local_object_matches world.recheck_fails world.reads files path expected),
          files,
        )
      ]

  -- The staging file is removed, and the directory synced, whatever came before.
  unfoldable pub finish : LocalWorld → Outcome Unit × Files → Outcome Unit × Files
  unfolding remove
  finish world (failed e, files) =
      if world.remove_fails then (failed e, files) else (failed e, remove world.temporary files)
  finish world (done u, files) = if world.remove_fails then (failed backend_error, files) else (
    if world.sync_fails then failed backend_error else done tt,
    remove world.temporary files,
  )

  abbrev pub with_partial : LocalWorld → Files → Files
  with_partial world files = elim world.partial [
    | none ↦ files
    | some blob ↦ (world.temporary, file blob) ∷ files
  ]

  -- The staging and the promotion.
  unfoldable pub stage : LocalWorld → Files → Str → Blob → ExpectedArtifact → Outcome Unit × Files
  unfolding promote finish
  stage world files path blob expected =
      if world.staging_fails
      then finish world (failed backend_error, with_partial world files)
      else finish world (promote world ((world.temporary, file blob) ∷ files) path blob expected)

  -- `put_local`
  unfoldable pub put_local :
      LocalWorld → Files → Str → Blob → ExpectedArtifact → Outcome Unit × Files
  unfolding local_object_matches rsplit_once_char stage
  put_local world files path blob expected =
      elim (local_object_matches world.metadata_fails world.reads files path expected) [
        | failed e ↦ (failed e, files)
        | done (some true) ↦ (done tt, files)
        | done (some false) ↦ (failed different_content, files)
        | done none ↦ elim (rsplit_once_char path b'/') [
          | none ↦ (failed no_parent, files)
          | some (parent, file_name) ↦
              if world.create_dir_fails
              then (failed backend_error, files)
              else stage world (files ++ world.others) path blob expected
        ]
      ]
