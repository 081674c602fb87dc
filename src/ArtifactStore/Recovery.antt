-- ===== src/ArtifactStore/Recovery.antt =====
-- src/storage.rs: when a failed PUT of the S3 backend still counts as a success.
use zed_api_server_rs.Prelude.{
  ℕ, ◌+◌, ◌^◌, ◌<◌, ℤ, pos, negsuc, Bool, true, false, ◌&&◌, Option, none, some, length, All, ◌≡◌,
  refl, ap, sym, ◌∙◌, ◌⊎◌, inl, inr, Bool-cases, &&_parts, ==_iff,
}
use zed_api_server_rs.Text.{Str}
use zed_api_server_rs.Text.Equality.{str_eq_iff}
use zed_api_server_rs.ArtifactStore.{
  Blob, concat, StoreErr, Outcome, done, failed, copy_buffer_bytes, ExpectedArtifact,
  immutable_cache_control, stream_matches,
}
use zed_api_server_rs.ArtifactStore.Remote.{
  GetObject, to_u64, eq_some_len, eq_some_text, get_metadata, object_metadata_matches,
  s3_object_matches, recovered, put_s3,
}
use zed_api_server_rs.ArtifactStore.Streams.{IsRead, stream_matches-concat}

eq_some_len_sound : (n : Option ℤ) (m : ℕ) → eq_some_len (to_u64 n) m ≡ true → n ≡ some (pos m)
eq_some_len_sound none m h = cc
eq_some_len_sound (some (pos n)) m h = ap (λ k. some (pos k)) ((==_iff n m).0 h)
eq_some_len_sound (some (negsuc n)) m h = cc

eq_some_text_sound : (s : Option Str) (t : Str) → eq_some_text s t ≡ true → s ≡ some t
eq_some_text_sound none t h = cc
eq_some_text_sound (some s) t h = ap some ((str_eq_iff s t).0 h)

not_done : {A : Type 0} → ◌≡◌ {A = Outcome Bool} (done false) (done true) → A
not_done h = cc

-- The object that is there is the one that was to be written, with its metadata.
pub record IsSame (sha256_hex : Blob → Str) (expected : ExpectedArtifact) (object : GetObject)
    : Type 0 where
  pub length_named : object.content_length ≡ some (pos expected.len)
  pub type_named : object.content_type ≡ some expected.content_type
  pub cache_named : object.cache_control ≡ some immutable_cache_control
  pub digest_named : get_metadata object.metadata ≡ some expected.sha256
  pub length_same : length (concat object.body) ≡ expected.len
  pub digest_same : sha256_hex (concat object.body) ≡ expected.sha256

metadata_lem :
    (object : GetObject) (expected : ExpectedArtifact)
    → object_metadata_matches object.content_length object.content_type object.cache_control
        object.metadata expected
      ≡ (eq_some_len (to_u64 object.content_length) expected.len
          && (eq_some_text object.content_type expected.content_type
              && (eq_some_text object.cache_control immutable_cache_control
                  && eq_some_text (get_metadata object.metadata) expected.sha256)))
unfolding object_metadata_matches
metadata_lem object expected = refl

module _ (sha256_hex : Blob → Str) (expected : ExpectedArtifact) where
  s3_object_matches_lem :
      (object : GetObject)
      → s3_object_matches sha256_hex (done object) expected
        ≡ (elim (object_metadata_matches object.content_length object.content_type
            object.cache_control object.metadata expected) [
              | false ↦ done false
              | true ↦ stream_matches sha256_hex expected object.body
            ])
  unfolding s3_object_matches
  s3_object_matches_lem object = refl

  done_inj : {b c : Bool} → ◌≡◌ {A = Outcome Bool} (done b) (done c) → b ≡ c
  done_inj h = cc

  matches-IsSame :
      (object : GetObject)
      → expected.len + copy_buffer_bytes < 2 ^ 64
      → All IsRead object.body
      → s3_object_matches sha256_hex (done object) expected ≡ done true
      → IsSame sha256_hex expected object
  matches-IsSame object room reads h =
      elim (Bool-cases (
        object_metadata_matches object.content_length object.content_type object.cache_control
          object.metadata expected)) [
            | inr e ↦ not_done (sym (s3_object_matches_lem object ∙ rw e) ∙ h)
            | inl e ↦
                let (len_ok, rest) = &&_parts _ _ (sym (metadata_lem object expected) ∙ e) in
                let (type_ok, rest') = &&_parts _ _ rest in
                let (cache_ok, sha_ok) = &&_parts _ _ rest' in
                let (same_len, same_sha) = &&_parts _ _ (
                  done_inj (
                    sym (stream_matches-concat sha256_hex expected object.body room reads)
                    ∙ sym (s3_object_matches_lem object ∙ rw e)
                    ∙ h)) in
                record {
                  length_named = eq_some_len_sound object.content_length expected.len len_ok;
                  type_named = eq_some_text_sound object.content_type expected.content_type type_ok;
                  cache_named =
                      eq_some_text_sound object.cache_control immutable_cache_control cache_ok;
                  digest_named =
                      eq_some_text_sound (get_metadata object.metadata) expected.sha256 sha_ok;
                  length_same = (==_iff (length (concat object.body)) expected.len).0 same_len;
                  digest_same =
                      (str_eq_iff (sha256_hex (concat object.body)) expected.sha256).0 same_sha;
                }
          ]

  put_s3_lem :
      (e : StoreErr) (got : Outcome GetObject)
      → put_s3 sha256_hex (failed e) got expected
        ≡ recovered sha256_hex e (s3_object_matches sha256_hex got expected)
  unfolding put_s3
  put_s3_lem e got = refl

  recovered-cases :
      (e : StoreErr) (answer : Outcome Bool)
      → ((recovered sha256_hex e answer ≡ done tt) × (answer ≡ done true))
        ⊎ (recovered sha256_hex e answer ≡ failed e)
  recovered-cases e (done true) = inl (refl, refl)
  recovered-cases e (done false) = inr refl
  recovered-cases e (failed other) = inr refl

  s3_failed : (e : StoreErr) → s3_object_matches sha256_hex (failed e) expected ≡ failed e
  unfolding s3_object_matches
  s3_failed e = refl

  -- After a PUT that failed, the write is a success only over an object whose declared length, content
  -- type, cache policy and digest metadata are the expected ones and whose bytes have the expected
  -- length and digest; in every other case the answer is the error of the PUT. The body comes in
  -- reads of at most a buffer each, and the expected length is a buffer below 2^64.
  pub put_s3-IsSame :
      (e : StoreErr) (got : Outcome GetObject)
      → expected.len + copy_buffer_bytes < 2 ^ 64
      → ((object : GetObject) → got ≡ done object → All IsRead object.body)
      → ((put_s3 sha256_hex (failed e) got expected ≡ done tt)
          × (object : GetObject) × (got ≡ done object)
          × IsSame sha256_hex expected object)
        ⊎ (put_s3 sha256_hex (failed e) got expected ≡ failed e)
  put_s3-IsSame e (failed other) room reads =
      inr (put_s3_lem e (failed other) ∙ ap (recovered sha256_hex e) (s3_failed other))
  put_s3-IsSame e (done object) room reads =
      elim (recovered-cases e (s3_object_matches sha256_hex (done object) expected)) [
        | inl (ok_, matched) ↦ inl (
          put_s3_lem e (done object) ∙ ok_,
          object,
          refl,
          matches-IsSame object room (reads object refl) matched,
        )
        | inr same ↦ inr (put_s3_lem e (done object) ∙ same)
      ]
