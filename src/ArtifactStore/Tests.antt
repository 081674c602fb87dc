-- ===== src/ArtifactStore/Tests.antt =====
-- src/storage.rs: runs of the three backends, with the first bytes of an object for its digest.
use zed_api_server_rs.Prelude.{
  ◌≤◌, pos, ap, subst, true, false, none, some, List, [], ◌∷◌, ◌++◌, All, ◌≡◌, refl, ◌⊎◌, ◌≢◌, take,
  arith,
}
use zed_api_server_rs.Text.{Str, str, str_eq}
use zed_api_server_rs.Text.Equality.{str_eq-false}
use zed_api_server_rs.ArtifactStore.{
  Blob, concat, Outcome, done, failed, different_content, capacity_exceeded, backend_error,
  ExpectedArtifact, immutable_cache_control, artifact_sha256_metadata_key, get, put_memory,
  stream_matches,
}
use zed_api_server_rs.ArtifactStore.Local.{file, Files, LocalWorld, lookup, put_local}
use zed_api_server_rs.ArtifactStore.Remote.{GetObject, put_s3}
use zed_api_server_rs.ArtifactStore.WriteOnce.{
  Write, contents, put_memory-Write, total, put_all, put_all-Bounded,
}
use zed_api_server_rs.ArtifactStore.Streams.{IsRead, stream_matches-concat}
use zed_api_server_rs.ArtifactStore.Staging.{Stored, put_local-Stored}
use zed_api_server_rs.ArtifactStore.Recovery.{IsSame, put_s3-IsSame}

abbrev digest : Blob → Str
digest blob = take 2 blob

abbrev one_object : List (Str × Blob)
one_object = (str "artifacts/a.zip", 1 ∷ 2 ∷ 3 ∷ []) ∷ []

test-stored : put_memory 8 one_object (str "k") (4 ∷ []) ≡ (done tt, (str "k", 4 ∷ []) ∷ one_object)
unfolding put_memory str
test-stored = refl

test-retried :
    put_memory 3 one_object (str "artifacts/a.zip") (1 ∷ 2 ∷ 3 ∷ []) ≡ (done tt, one_object)
unfolding put_memory str
test-retried = refl

test-collided :
    put_memory 8 one_object (str "artifacts/a.zip") (1 ∷ [])
    ≡ (failed different_content, one_object)
unfolding put_memory str
test-collided = refl

test-full : put_memory 3 one_object (str "k") (4 ∷ []) ≡ (failed (capacity_exceeded 4), one_object)
unfolding put_memory str
test-full = refl

put_memory-Write_example :
    Write 8
      (str "k")
      (4 ∷ [])
      (contents one_object)
      (put_memory 8 one_object (str "k") (4 ∷ [])).0
      (contents (put_memory 8 one_object (str "k") (4 ∷ [])).1)
put_memory-Write_example = put_memory-Write 8 one_object (str "k") (4 ∷ [])

put_all-Bounded_example :
    (total (put_all 4 ((str "k", 4 ∷ []) ∷ (str "m", 5 ∷ []) ∷ []) (put_all 4 one_object [])) ≤ 4)
    × (get
          (str "artifacts/a.zip")
          (put_all 4 ((str "k", 4 ∷ []) ∷ (str "m", 5 ∷ []) ∷ []) (put_all 4 one_object []))
        ≡ some (1 ∷ 2 ∷ 3 ∷ []))
unfolding put_memory str
put_all-Bounded_example =
    put_all-Bounded 4 one_object ((str "k", 4 ∷ []) ∷ (str "m", 5 ∷ []) ∷ [])
      (str "artifacts/a.zip") (1 ∷ 2 ∷ 3 ∷ []) refl

abbrev expected : ExpectedArtifact
expected = record { len = 3; sha256 = 1 ∷ 2 ∷ []; content_type = str "application/zip" }

two-reads : All IsRead ((1 ∷ 2 ∷ []) ∷ (3 ∷ []) ∷ [])
two-reads = (
  record { some_bytes = refl; fits = omega arith },
  (record { some_bytes = refl; fits = omega arith }, tt),
)

test-too_long :
    stream_matches digest expected ((1 ∷ 2 ∷ []) ∷ (3 ∷ 4 ∷ []) ∷ (5 ∷ []) ∷ []) ≡ done false
unfolding stream_matches
test-too_long = refl

stream_matches-concat_example :
    stream_matches digest expected ((1 ∷ 2 ∷ []) ∷ (3 ∷ []) ∷ []) ≡ done true
unfolding str_eq
stream_matches-concat_example =
    stream_matches-concat digest expected ((1 ∷ 2 ∷ []) ∷ (3 ∷ []) ∷ []) (omega arith) two-reads

abbrev stored_object : GetObject
stored_object = record {
  content_length = some (pos 3);
  content_type = some (str "application/zip");
  cache_control = some immutable_cache_control;
  metadata = some ((artifact_sha256_metadata_key, 1 ∷ 2 ∷ []) ∷ []);
  body = (1 ∷ 2 ∷ []) ∷ (3 ∷ []) ∷ [];
}

test-recovered : put_s3 digest (failed backend_error) (done stored_object) expected ≡ done tt
unfolding put_s3 str
test-recovered = refl

test-unrecovered :
    put_s3 digest
      (failed backend_error)
      (done (record stored_object { cache_control = none }))
      expected
    ≡ failed backend_error
unfolding put_s3 str
test-unrecovered = refl

done_inj : {a b : GetObject} → ◌≡◌ {A = Outcome GetObject} (done a) (done b) → a ≡ b
done_inj h = cc

put_s3-IsSame_example :
    ((put_s3 digest (failed backend_error) (done stored_object) expected ≡ done tt)
      × (object : GetObject) × (◌≡◌ {A = Outcome GetObject} (done stored_object) (done object))
      × IsSame digest expected object)
    ⊎ (put_s3 digest (failed backend_error) (done stored_object) expected ≡ failed backend_error)
put_s3-IsSame_example =
    put_s3-IsSame digest expected backend_error (done stored_object) (omega arith)
      (λ object h. subst (λ o. All IsRead o.body) (done_inj h) two-reads)

abbrev bytewise : Blob → List Blob
bytewise [] = []
bytewise (c ∷ cs) = (c ∷ []) ∷ bytewise cs

bytewise-Reads : (blob : Blob) → All IsRead (bytewise blob) × (concat (bytewise blob) ≡ blob)
bytewise-Reads [] = (tt, refl)
bytewise-Reads (c ∷ cs) =
    let (reads, whole) = bytewise-Reads cs in
    ((record { some_bytes = refl; fits = omega arith }, reads), ap (λ t. c ∷ t) whole)

abbrev world : LocalWorld
world = record {
  metadata_fails = false;
  create_dir_fails = false;
  staging_fails = false;
  partial = none;
  link_fails = false;
  recheck_fails = false;
  remove_fails = false;
  sync_fails = false;
  reads = bytewise;
  temporary = str "d/.k.tmp";
  others = [];
}

abbrev files : Files
files = (str "d/j", file (7 ∷ [])) ∷ []

test-written :
    put_local digest world files (str "d/k") (1 ∷ 2 ∷ 3 ∷ []) expected
    ≡ (done tt, (str "d/k", file (1 ∷ 2 ∷ 3 ∷ [])) ∷ files)
unfolding put_local str
test-written = refl

-- Another writer was first, with other bytes.
test-lost_race :
    put_local digest
      (record world { others = (str "d/k", file (1 ∷ 2 ∷ [])) ∷ [] })
      files
      (str "d/k")
      (1 ∷ 2 ∷ 3 ∷ [])
      expected
    ≡ (failed different_content, files ++ (str "d/k", file (1 ∷ 2 ∷ [])) ∷ [])
unfolding put_local str
test-lost_race = refl

apart : str "d/.k.tmp" ≢ str "d/k"
unfolding str str_eq
apart = str_eq-false (str "d/.k.tmp") (str "d/k") refl

apart_j : str "d/.k.tmp" ≢ str "d/j"
unfolding str str_eq
apart_j = str_eq-false (str "d/.k.tmp") (str "d/j") refl

put_local-Stored_example :
    Stored digest
      (str "d/k")
      expected
      (str "d/j")
      (lookup (str "d/j") files)
      (put_local digest world files (str "d/k") (1 ∷ 2 ∷ 3 ∷ []) expected)
unfolding str lookup
put_local-Stored_example =
    put_local-Stored digest (str "d/k") expected world (1 ∷ 2 ∷ 3 ∷ []) (omega arith) bytewise-Reads
      apart refl refl files (str "d/j") apart_j
