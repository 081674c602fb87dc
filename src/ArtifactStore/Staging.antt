-- ===== src/ArtifactStore/Staging.antt =====
-- src/storage.rs: a write of the local backend replaces no file, and succeeds only over its bytes.
use mathlib.Core.Option.{none-ne-some}
use zed_api_server_rs.Prelude.{
  ◌+◌, ◌^◌, ◌<◌, Bool, true, false, ◌&&◌, Option, none, some, List, ◌∷◌, ◌++◌, if◌then◌else◌, ◌==◌,
  length, All, ◌≡◌, refl, ap, sym, subst, ◌∙◌, ◌⊎◌, inl, inr, ◌≢◌, Bool-cases, Option-cases,
  &&_parts, ==_iff,
}
use zed_api_server_rs.Text.{Str, str_eq, rsplit_once_char}
use zed_api_server_rs.Text.Equality.{str_eq-false, str_eq_iff}
use zed_api_server_rs.ArtifactStore.{
  Blob, concat, StoreErr, Outcome, done, failed, backend_error, different_content, no_parent,
  copy_buffer_bytes, ExpectedArtifact, stream_matches,
}
use zed_api_server_rs.ArtifactStore.Local.{
  Node, file, directory, Files, lookup, remove, LocalWorld, local_object_matches, after_race,
  promote, finish, with_partial, stage, put_local,
}
use zed_api_server_rs.ArtifactStore.Files.{lookup_here, lookup_other, lookup-append, lookup-remove}
use zed_api_server_rs.ArtifactStore.Streams.{IsRead, stream_matches-concat}

never : {A : Type 0} (e : StoreErr) → ◌≡◌ {A = Outcome Unit} (failed e) (done tt) → A
never e h = cc

answer-cases :
    (found : Outcome (Option Bool))
    → ((e : StoreErr) × (found ≡ failed e))
      ⊎ (found ≡ done none)
      ⊎ (found ≡ done (some false))
      ⊎ (found ≡ done (some true))
answer-cases (failed e) = inl (e, refl)
answer-cases (done none) = inr (inl refl)
answer-cases (done (some false)) = inr (inr (inl refl))
answer-cases (done (some true)) = inr (inr (inr refl))

-- Whatever is found at a path other than the staging file's is found there afterwards.
abbrev pub Kept : Str → Files → Files → Type 0
Kept temporary files after =
    (k : Str) (n : Node) → temporary ≢ k → lookup k files ≡ some n → lookup k after ≡ some n

module _ (sha256_hex : Blob → Str) (path : Str) (expected : ExpectedArtifact) where
  -- The path holds bytes with the expected length and digest.
  abbrev pub Holds : Files → Type 0
  Holds files =
      (stored : Blob) × (lookup path files ≡ some (file stored))
      × (length stored ≡ expected.len)
      × (sha256_hex stored ≡ expected.sha256)

  -- What a write from `files` may have done.
  abbrev pub Promoted : Str → Files → Outcome Unit × Files → Type 0
  Promoted temporary files result =
      Kept temporary files result.1 × (result.0 ≡ done tt → Holds result.1)

  -- What was found at a path before, if anything was, is there now.
  abbrev pub StillThere : Str → Option Node → Files → Type 0
  StillThere k none files = Unit
  StillThere k (some n) files = lookup k files ≡ some n

  -- What was found at a path is there, and the write has failed or its path holds the bytes.
  abbrev pub Stored : Str → Option Node → Outcome Unit × Files → Type 0
  Stored k found result =
      StillThere k found result.1
      × (((e : StoreErr) × (result.0 ≡ failed e)) ⊎ ((result.0 ≡ done tt) × Holds result.1))

  Outcome-cases : (r : Outcome Unit) → ((e : StoreErr) × (r ≡ failed e)) ⊎ (r ≡ done tt)
  Outcome-cases (failed e) = inl (e, refl)
  Outcome-cases (done u) = inr refl

  matches_fails :
      (reads : Blob → List Blob) (files : Files)
      → local_object_matches sha256_hex true reads files path expected ≡ failed backend_error
  unfolding local_object_matches
  matches_fails reads files = refl

  matches_lem :
      (reads : Blob → List Blob) (files : Files) (found : Option Node)
      → lookup path files ≡ found
      → local_object_matches sha256_hex false reads files path expected ≡ (elim found [
        | none ↦ done none
        | some directory ↦ done (some false)
        | some (file blob) ↦ elim (length blob == expected.len) [
          | false ↦ done (some false)
          | true ↦ elim (stream_matches sha256_hex expected (reads blob)) [
            | failed e ↦ failed e
            | done matches ↦ done (some matches)
          ]
        ]
      ])
  unfolding local_object_matches
  matches_lem reads files found h = rw (h, local_object_matches)

  -- How the reader cuts the files of the directory.
  abbrev pub Reads : (Blob → List Blob) → Type 0
  Reads reads = (blob : Blob) → All IsRead (reads blob) × (concat (reads blob) ≡ blob)

  abbrev chosen : Outcome Bool → Bool → Outcome (Option Bool)
  chosen answer b = elim b [
    | false ↦ done (some false)
    | true ↦ elim answer [ failed e ↦ failed e | done matches ↦ done (some matches) ]
  ]

  both : (a b : Bool) → chosen (done (a && b)) a ≡ done (some true) → (a && b) ≡ true
  both true true h = refl
  both true false h = cc
  both false b h = cc

  file-Holds :
      (reads : Blob → List Blob) (files : Files) (blob : Blob)
      → expected.len + copy_buffer_bytes < 2 ^ 64
      → Reads reads
      → lookup path files ≡ some (file blob)
      → local_object_matches sha256_hex false reads files path expected ≡ done (some true)
      → Holds files
  file-Holds reads files blob room cut found h =
      let seen = sym (matches_lem reads files (some (file blob)) found) ∙ h in
      let whole =
        subst
          (λ w.
            stream_matches sha256_hex expected (reads blob)
            ≡ done (length w == expected.len && str_eq (sha256_hex w) expected.sha256))
          (cut blob).1 (stream_matches-concat sha256_hex expected (reads blob) room (cut blob).0) in
      let (same_len, same_sha) = &&_parts _ _ (
        both (length blob == expected.len) (str_eq (sha256_hex blob) expected.sha256) (
          subst (λ answer. chosen answer (length blob == expected.len) ≡ done (some true)) whole
            seen)) in
      (
        blob,
        found,
        (==_iff (length blob) expected.len).0 same_len,
        (str_eq_iff (sha256_hex blob) expected.sha256).0 same_sha,
      )

  -- The file that the check accepts.
  matches-Holds :
      (fails : Bool) (reads : Blob → List Blob) (files : Files)
      → expected.len + copy_buffer_bytes < 2 ^ 64
      → Reads reads
      → local_object_matches sha256_hex fails reads files path expected ≡ done (some true)
      → Holds files
  matches-Holds true reads files room cut h = let absurd = sym (matches_fails reads files) ∙ h in cc
  matches-Holds false reads files room cut h = elim (Option-cases (lookup path files)) [
    | inl e ↦ let absurd = sym (matches_lem reads files none e) ∙ h in cc
    | inr (directory, e) ↦ let absurd = sym (matches_lem reads files (some directory) e) ∙ h in cc
    | inr (file blob, e) ↦ file-Holds reads files blob room cut e h
  ]

  module _ (world : LocalWorld) (blob : Blob) (room : expected.len + copy_buffer_bytes < 2 ^ 64)
      (cut : Reads world.reads) (apart : world.temporary ≢ path)
      (same_len : length blob ≡ expected.len) (same_sha : sha256_hex blob ≡ expected.sha256) where
    after_race-done :
        (answer : Outcome (Option Bool))
        → after_race sha256_hex answer ≡ done tt
        → answer ≡ done (some true)
    after_race-done (failed e) h = cc
    after_race-done (done none) h = cc
    after_race-done (done (some false)) h = cc
    after_race-done (done (some true)) h = refl

    promote_lem :
        (files : Files)
        → promote sha256_hex world files path blob expected ≡ (
            if world.link_fails then (failed backend_error, files) else elim (lookup path files) [
              | none ↦ (done tt, (path, file blob) ∷ files)
              | some node ↦ (
                after_race sha256_hex (
                    local_object_matches sha256_hex world.recheck_fails world.reads files path
                      expected),
                files,
              )
            ])
    unfolding promote
    promote_lem files = refl

    promote-Promoted :
        (files : Files)
        → Promoted world.temporary files (promote sha256_hex world files path blob expected)
    promote-Promoted files = elim (Bool-cases world.link_fails) [
      | inl e ↦
          subst (Promoted world.temporary files) (sym (promote_lem files ∙ rw e))
            ((λ k n other h. h), never backend_error)
      | inr e ↦ elim (Option-cases (lookup path files)) [
        | inl h ↦
            subst (Promoted world.temporary files) {x = (done tt, (path, file blob) ∷ files)}
              (sym (promote_lem files ∙ rw (e, h)))
              (
                (λ k n other found. elim (Bool-cases (str_eq path k)) [
                  | inl same ↦
                      elim (none-ne-some _
                        (sym h ∙ ap (λ p. lookup p files) ((str_eq_iff path k).0 same) ∙ found)) [ ]
                  | inr differ ↦
                      lookup_other k path (file blob) files (str_eq-false path k differ) ∙ found
                ]),
                (λ u. (blob, lookup_here path (file blob) files, same_len, same_sha)),
              )
        | inr (there, h) ↦
            subst (Promoted world.temporary files)
              {x = (
                after_race sha256_hex (
                    local_object_matches sha256_hex world.recheck_fails world.reads files path
                      expected),
                files,
              )}
              (sym (promote_lem files ∙ rw (e, h)))
              (
                (λ k n other found. found),
                (λ u.
                    matches-Holds world.recheck_fails world.reads files room cut
                      (after_race-done _ u)),
              )
      ]
    ]

    finish_failed :
        (e : StoreErr) (files : Files)
        → finish sha256_hex world (failed e, files) ≡ (
            if world.remove_fails
            then (failed e, files)
            else (failed e, remove world.temporary files))
    unfolding finish
    finish_failed e files = refl

    finish_done :
        (files : Files)
        → finish sha256_hex world (done tt, files) ≡ (
            if world.remove_fails then (failed backend_error, files) else (
              if world.sync_fails then failed backend_error else done tt,
              remove world.temporary files,
            ))
    unfolding finish
    finish_done files = refl

    removed :
        (files : Files) (k : Str) (n : Node)
        → world.temporary ≢ k
        → lookup k files ≡ some n
        → lookup k (remove world.temporary files) ≡ some n
    removed files k n other found = lookup-remove k world.temporary files other ∙ found

    removed-Holds : (files : Files) → Holds files → Holds (remove world.temporary files)
    removed-Holds files (b, found, l, s) = (b, removed files path (file b) apart found, l, s)

    -- The clean-up keeps what the promotion has brought about.
    finish-Promoted :
        (before : Files) (result : Outcome Unit × Files)
        → Promoted world.temporary before result
        → Promoted world.temporary before (finish sha256_hex world result)
    finish-Promoted before (failed e, files) (kept, holds) = elim (Bool-cases world.remove_fails) [
      | inl h ↦
          subst (Promoted world.temporary before) (sym (finish_failed e files ∙ rw h))
            (kept, never e)
      | inr h ↦
          subst (Promoted world.temporary before) (sym (finish_failed e files ∙ rw h))
            ((λ k n other found. removed files k n other (kept k n other found)), never e)
    ]
    finish-Promoted before (done u, files) (kept, holds) = elim (Bool-cases world.remove_fails) [
      | inl h ↦
          subst (Promoted world.temporary before) {x = (failed backend_error, files)}
            (sym (finish_done files ∙ rw h)) (kept, never backend_error)
      | inr h ↦
          subst (Promoted world.temporary before)
            {x = (
              if world.sync_fails then failed backend_error else done tt,
              remove world.temporary files,
            )}
            (sym (finish_done files ∙ rw h))
            (
              (λ k n other found. removed files k n other (kept k n other found)),
              (λ answer. removed-Holds files (holds refl)),
            )
    ]

    stage_lem :
        (files : Files)
        → stage sha256_hex world files path blob expected ≡ (
            if world.staging_fails
            then finish sha256_hex world (failed backend_error, with_partial sha256_hex world files)
            else finish sha256_hex world (
                promote sha256_hex world ((world.temporary, file blob) ∷ files) path blob expected))
    unfolding stage
    stage_lem files = refl

    partial-Kept :
        (files : Files) → Kept world.temporary files (with_partial sha256_hex world files)
    partial-Kept files k n other found = elim (Option-cases world.partial) [
      | inl h ↦ rw h found
      | inr (b, h) ↦ rw h (lookup_other k world.temporary (file b) files other ∙ found)
    ]

    stage-Promoted :
        (files : Files)
        → Promoted world.temporary files (stage sha256_hex world files path blob expected)
    stage-Promoted files = elim (Bool-cases world.staging_fails) [
      | inl h ↦
          subst (Promoted world.temporary files) (sym (stage_lem files ∙ rw h))
            (finish-Promoted files _ (partial-Kept files, never backend_error))
      | inr h ↦
          let staged = (world.temporary, file blob) ∷ files in
          let (kept, holds) = promote-Promoted staged in
          subst (Promoted world.temporary files) (sym (stage_lem files ∙ rw h)) (
            finish-Promoted files _ (
              (λ k n other found.
                  kept k n other (lookup_other k world.temporary (file blob) files other ∙ found)),
              holds,
            ))
    ]

    put_local_lem :
        (files : Files)
        → put_local sha256_hex world files path blob expected
          ≡ (elim (local_object_matches sha256_hex world.metadata_fails world.reads files path
              expected) [
                | failed e ↦ (failed e, files)
                | done (some true) ↦ (done tt, files)
                | done (some false) ↦ (failed different_content, files)
                | done none ↦ elim (rsplit_once_char path b'/') [
                  | none ↦ (failed no_parent, files)
                  | some (parent, file_name) ↦
                      if world.create_dir_fails
                      then (failed backend_error, files)
                      else stage sha256_hex world (files ++ world.others) path blob expected
                ]
              ])
    unfolding put_local
    put_local_lem files = refl

    unchanged : (files : Files) (e : StoreErr) → Promoted world.temporary files (failed e, files)
    unchanged files e = ((λ k n other h. h), never e)

    fresh-Promoted :
        (files : Files) (split : Option (Str × Str))
        → Promoted world.temporary files (elim split [
          | none ↦ (failed no_parent, files)
          | some (parent, file_name) ↦
              if world.create_dir_fails
              then (failed backend_error, files)
              else stage sha256_hex world (files ++ world.others) path blob expected
        ])
    fresh-Promoted files none = unchanged files no_parent
    fresh-Promoted files (some (parent, file_name)) =
        or_stage world.create_dir_fails
          (stage sha256_hex world (files ++ world.others) path blob expected)
          (let (kept, holds) = stage-Promoted (files ++ world.others) in
            (
              (λ k n other found. kept k n other (lookup-append k n files world.others found)),
              holds,
            ))
      where
        or_stage :
            (b : Bool) (result : Outcome Unit × Files)
            → Promoted world.temporary files result
            → Promoted world.temporary files (if b then (failed backend_error, files) else result)
        or_stage true result h = unchanged files backend_error
        or_stage false result h = h

    put_local-Promoted :
        (files : Files)
        → Promoted world.temporary files (put_local sha256_hex world files path blob expected)
    put_local-Promoted files =
        elim (answer-cases
          (local_object_matches sha256_hex world.metadata_fails world.reads files path expected)) [
            | inl (e, h) ↦
                subst (Promoted world.temporary files) (sym (put_local_lem files ∙ rw h))
                  (unchanged files e)
            | inr (inl h) ↦
                subst (Promoted world.temporary files) (sym (put_local_lem files ∙ rw h))
                  (fresh-Promoted files (rsplit_once_char path b'/'))
            | inr (inr (inl h)) ↦
                subst (Promoted world.temporary files) (sym (put_local_lem files ∙ rw h))
                  (unchanged files different_content)
            | inr (inr (inr h)) ↦
                subst (Promoted world.temporary files) {x = (done tt, files)}
                  (sym (put_local_lem files ∙ rw h))
                  (
                    (λ k n other found. found),
                    (λ u. matches-Holds world.metadata_fails world.reads files room cut h),
                  )
          ]

    -- Whatever the file system and other writers do, a write of the local backend replaces nothing
    -- at any path but its staging file's, and it fails, or its path holds bytes with the length and
    -- the digest of what was to be written. The staging path is not the written one, the reader cuts
    -- a file into reads of at most a buffer, the length leaves room for a buffer below 2^64, and the
    -- caller has declared the length and the digest of the bytes.
    pub put_local-Stored :
        (files : Files) (k : Str)
        → world.temporary ≢ k
        → Stored k (lookup k files) (put_local sha256_hex world files path blob expected)
    put_local-Stored files k other =
        let (kept, holds) = put_local-Promoted files in
        (
          elim (Option-cases (lookup k files)) [
            | inl missing ↦ rw missing tt
            | inr (n, found) ↦ rw found (kept k n other found)
          ],
          elim (Outcome-cases (put_local sha256_hex world files path blob expected).0) [
            | inl failure ↦ inl failure
            | inr h ↦ inr (h, holds h)
          ],
        )
