-- ===== src/ArtifactStore/Streams.antt =====
-- src/storage.rs: what the check of a stored object shows does not depend on how its stream is cut.
use zed_api_server_rs.Prelude.{
  ℕ, ◌+◌, ◌^◌, ◌≤◌, ◌<◌, true, false, ◌&&◌, List, [], ◌∷◌, ◌++◌, ltb, ◌==◌, length, All, is_empty,
  length-append, append_assoc, append-nil, ◌≡◌, refl, ap, sym, subst, ◌∙◌, ◌⊎◌, inl, inr, arith,
}
use zed_api_server_rs.Text.{Str, str_eq}
use zed_api_server_rs.ArtifactStore.{
  Blob, concat, Outcome, done, copy_buffer_bytes, ExpectedArtifact, hash_from, hash_async_reader,
  stream_matches, ◌>>=◌,
}
use zed_api_server_rs.ArtifactStore.WriteOnce.{ltb-true, ltb-false, checked_add-some, at_most}

-- What one read yields before the end of the stream.
pub record IsRead (chunk : Blob) : Type 0 where
  pub some_bytes : is_empty chunk ≡ false
  pub fits : length chunk ≤ copy_buffer_bytes

module _ (sha256_hex : Blob → Str) where
  hash_from_nil :
      (expected_len : ℕ) (seen : Blob) (len : ℕ)
      → hash_from sha256_hex expected_len seen len [] ≡ done (len, sha256_hex seen)
  unfolding hash_from
  hash_from_nil expected_len seen len = refl

  hash_from_cons :
      (expected_len : ℕ) (seen : Blob) (len : ℕ) (chunk : Blob) (chunks : List Blob)
      → is_empty chunk ≡ false
      → len + length chunk < 2 ^ 64
      → hash_from sha256_hex expected_len seen len (chunk ∷ chunks)
        ≡ (elim (ltb expected_len (len + length chunk)) [
          | true ↦ done (len + length chunk, [])
          | false ↦ hash_from sha256_hex expected_len (seen ++ chunk) (len + length chunk) chunks
        ])
  unfolding hash_from
  hash_from_cons expected_len seen len chunk chunks h k =
      rw (h, checked_add-some len (length chunk) k)

  -- A stream that fits is hashed whole; one that does not is given up with no digest.
  abbrev Hashed : ℕ → Blob → Outcome (ℕ × Str) → Type 0
  Hashed expected_len whole answer =
      ((length whole ≤ expected_len) × (answer ≡ done (length whole, sha256_hex whole)))
      ⊎ ((expected_len < length whole) × (n : ℕ) × (expected_len < n) × (answer ≡ done (n, [])))

  hash_from-Hashed :
      (expected_len : ℕ) (seen : Blob) (len : ℕ) (chunks : List Blob)
      → expected_len + copy_buffer_bytes < 2 ^ 64
      → All IsRead chunks
      → len ≡ length seen
      → len ≤ expected_len
      → Hashed expected_len
          (seen ++ concat chunks)
          (hash_from sha256_hex expected_len seen len chunks)
  hash_from-Hashed expected_len seen len [] room reads same fits =
      subst (λ w. Hashed expected_len w (hash_from sha256_hex expected_len seen len []))
        (sym (append-nil seen))
        (inl (
          omega (arith, same),
          hash_from_nil expected_len seen len ∙ ap (λ n. done (n, sha256_hex seen)) same,
        ))
  hash_from-Hashed expected_len seen len (chunk ∷ chunks) room (read, reads) same fits =
      let step =
        hash_from_cons expected_len seen len chunk chunks read.some_bytes
          (omega (arith, read.fits)) in
      elim (at_most expected_len (len + length chunk)) [
        | inl over ↦ inr (
          omega (
            arith,
            same,
            length-append seen (chunk ++ concat chunks),
            length-append chunk (concat chunks),
          ),
          len + length chunk,
          over,
          step ∙ rw (ltb-true expected_len (len + length chunk) over),
        )
        | inr small ↦
            subst
              (λ w.
                Hashed expected_len w (hash_from sha256_hex expected_len seen len (chunk ∷ chunks)))
              (append_assoc seen chunk (concat chunks))
              (subst (Hashed expected_len ((seen ++ chunk) ++ concat chunks))
                (sym (step ∙ rw (ltb-false expected_len (len + length chunk) small)))
                (hash_from-Hashed expected_len (seen ++ chunk) (len + length chunk) chunks room
                  reads (omega (arith, same, length-append seen chunk)) small))
      ]

  hash_async_reader_lem :
      (chunks : List Blob) (n : ℕ)
      → hash_async_reader sha256_hex chunks n ≡ hash_from sha256_hex n [] 0 chunks
  unfolding hash_async_reader
  hash_async_reader_lem chunks n = refl

  stream_matches_lem :
      (expected : ExpectedArtifact) (chunks : List Blob)
      → stream_matches sha256_hex expected chunks ≡ (
          hash_async_reader sha256_hex chunks expected.len
          >>= (λ found. done (found.0 == expected.len && str_eq found.1 expected.sha256)))
  unfolding stream_matches
  stream_matches_lem expected chunks = refl

  different_len : (n m : ℕ) → n < m → (m == n) ≡ false
  different_len n m h = ground arith

  -- However the reader cuts an object into non-empty reads of at most a buffer each, the check finds
  -- whether its length and its digest are the expected ones, when the expected length is a buffer
  -- below 2^64; an object that is too long is told apart without reading it to the end.
  pub stream_matches-concat :
      (expected : ExpectedArtifact) (chunks : List Blob)
      → expected.len + copy_buffer_bytes < 2 ^ 64
      → All IsRead chunks
      → stream_matches sha256_hex expected chunks
        ≡ done (
            length (concat chunks) == expected.len
            && str_eq (sha256_hex (concat chunks)) expected.sha256)
  stream_matches-concat expected chunks room reads =
      stream_matches_lem expected chunks
      ∙ elim (hash_from-Hashed expected.len [] 0 chunks room reads refl (omega arith)) [
        | inl (fits, e) ↦ rw (hash_async_reader_lem chunks expected.len, e)
        | inr (over, n, more, e) ↦ rw (
          hash_async_reader_lem chunks expected.len,
          e,
          different_len expected.len n more,
          different_len expected.len (length (concat chunks)) over,
        )
      ]
