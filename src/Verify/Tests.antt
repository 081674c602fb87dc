-- ===== src/Verify/Tests.antt =====
-- src/verify.rs and src/signing.rs: repositories, tags and signatures.
use mathlib.Core.List.{Memᴰ}
use zed_api_server_rs.Prelude.{Bool, true, false, none, some, List, [], ◌∷◌, ◌≡◌, refl, ◌⊎◌, All}
use zed_api_server_rs.Text.{Str, str, str_eq}
use zed_api_server_rs.ArtifactStore.{Blob}
use zed_api_server_rs.ArtifactStore.Keys.{guessable_alias_keys}
use zed_api_server_rs.Verify.{
  parse_github, verified, github, object, verify, Signature, KeyState, active, retired, revoked,
  PublisherKey, KeyRow, load_keys, signer, verify_any,
}
use zed_api_server_rs.Verify.Signers.{IsGood, verify_any-IsGood}

test-github :
    parse_github (str "https://github.com/acme/http-kit.git") ≡ some (str "acme", str "http-kit")
unfolding parse_github str
test-github = refl

test-dots : parse_github (str "https://github.com/../foo") ≡ none
unfolding parse_github str
test-dots = refl

test-gitlab : parse_github (str "https://gitlab.com/acme/x") ≡ none
unfolding parse_github str
test-gitlab = refl

test-commit :
    verify
      (λ s. s)
      (λ url. object (some (str "commit")) (some (str "abc")))
      github
      true
      (str "git@github.com:acme/http-kit.git")
      (str "v1")
    ≡ some (verified (some (str "abc")))
unfolding verify str
test-commit = refl

test-aliases :
    guessable_alias_keys
      (str "acme")
      (str "kit")
      (str "1.0.0")
      (str "v1")
      (str "zip")
      (str "https://github.com/acme/http-kit")
    ≡ str "github/acme/http-kit/v1/kit-1.0.0.zip" ∷ str "packages/acme/kit/1.0.0/kit-1.0.0.zip" ∷ []
unfolding guessable_alias_keys str
test-aliases = refl

test-unsafe_alias :
    guessable_alias_keys (str "acme") (str "..") (str "1.0.0") (str "v1") (str "zip") (str "x") ≡ []
unfolding guessable_alias_keys str
test-unsafe_alias = refl

abbrev not_revoked : KeyState → Bool
not_revoked active = true
not_revoked retired = true
not_revoked revoked = false

abbrev rows : List KeyRow
rows =
    record {
      org_id = 1;
      key_id = str "k1";
      algorithm = str "ed25519";
      public_key_multibase = str "z1";
      state = str "compromised";
    }
    ∷ record {
      org_id = 1;
      key_id = str "k2";
      algorithm = str "ed25519";
      public_key_multibase = str "z2";
      state = str "retired";
    }
    ∷ []

abbrev by_value : Blob → Signature → PublisherKey → Bool
by_value preimage signature key = str_eq signature.value key.public_key_multibase

abbrev signature : Str → Str → Signature
signature key_id value = record { algorithm = str "ed25519"; key_id = key_id; value = value }

-- A key in a state that this server does not know is not trusted.
test-unknown_state :
    verify_any
      (str "ed25519")
      not_revoked
      by_value
      []
      (signature (str "k1") (str "z1") ∷ [])
      (load_keys rows 1)
    ≡ none
unfolding verify_any load_keys str
test-unknown_state = refl

abbrev two : List Signature
two = signature (str "k1") (str "z1") ∷ signature (str "k2") (str "z2") ∷ []

verify_any-IsGood_example :
    ((key : PublisherKey) × (s : Signature) × (verify_any
          (str "ed25519")
          not_revoked
          by_value
          []
          two
          (load_keys rows 1)
        ≡ some key)
      × Memᴰ s two
      × IsGood (str "ed25519") not_revoked by_value [] (load_keys rows 1) s key)
    ⊎ ((verify_any (str "ed25519") not_revoked by_value [] two (load_keys rows 1) ≡ none)
        × All (λ s. signer (str "ed25519") not_revoked by_value [] (load_keys rows 1) s ≡ none) two)
verify_any-IsGood_example =
    verify_any-IsGood (str "ed25519") not_revoked by_value [] two (load_keys rows 1)
