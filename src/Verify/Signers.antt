-- ===== src/Verify/Signers.antt =====
-- src/signing.rs: which signatures admit a publication.
use mathlib.Core.List.{Memᴰ}
use zed_api_server_rs.Prelude.{
  Bool, true, ◌&&◌, Option, none, some, List, [], ◌∷◌, if◌then◌else◌, ◌≡◌, refl, ap, sym, subst,
  ◌∙◌, ◌⊎◌, inl, inr, Bool-cases, Option-cases, &&_parts, All,
}
use zed_api_server_rs.Text.{Str, str_eq}
use zed_api_server_rs.Text.Equality.{str_eq_iff}
use zed_api_server_rs.ArtifactStore.{Blob}
use zed_api_server_rs.Verify.{Signature, KeyState, PublisherKey, find_key, signer, verify_any}

module _ (algorithm : Str) (verifies : KeyState → Bool)
    (verify_one : Blob → Signature → PublisherKey → Bool) where
  -- A signature that a key of the list has made and may still vouch for.
  pub record IsGood (preimage : Blob) (keys : List PublisherKey) (signature : Signature)
      (key : PublisherKey) : Type 0 where
    pub known : Memᴰ key keys
    pub named : key.key_id ≡ signature.key_id
    pub vouches : verifies key.state ≡ true
    pub algorithm_is : signature.algorithm ≡ algorithm
    pub made : verify_one preimage signature key ≡ true

  find_key_cons :
      (key_id : Str) (key : PublisherKey) (keys : List PublisherKey)
      → find_key algorithm verifies verify_one key_id (key ∷ keys) ≡ (
          if verifies key.state && str_eq key.key_id key_id
          then some key
          else find_key algorithm verifies verify_one key_id keys)
  unfolding find_key
  find_key_cons key_id key keys = refl

  find_key_nil : (key_id : Str) → find_key algorithm verifies verify_one key_id [] ≡ none
  unfolding find_key
  find_key_nil key_id = refl

  some_inj : {a b : PublisherKey} → some a ≡ some b → a ≡ b
  some_inj h = cc

  find_key_sound :
      (key_id : Str) (keys : List PublisherKey) (key : PublisherKey)
      → find_key algorithm verifies verify_one key_id keys ≡ some key
      → Memᴰ key keys × (key.key_id ≡ key_id) × (verifies key.state ≡ true)
  find_key_sound key_id [] key h = let absurd = sym (find_key_nil key_id) ∙ h in cc
  find_key_sound key_id (k ∷ keys) key h =
      let found = sym (find_key_cons key_id k keys) ∙ h in
      elim (Bool-cases (verifies k.state && str_eq k.key_id key_id)) [
        | inl e ↦
            let same = some_inj (
              sym (
                ap (λ b. if b then some k else find_key algorithm verifies verify_one key_id keys)
                  e)
              ∙ found) in
            let (live, named) = &&_parts (verifies k.state) (str_eq k.key_id key_id) e in
            (
              Memᴰ.head (sym same),
              subst (λ (x : PublisherKey). x.key_id ≡ key_id) same ((str_eq_iff _ _).0 named),
              subst (λ (x : PublisherKey). verifies x.state ≡ true) same live,
            )
        | inr e ↦
            let (m, named, live) = find_key_sound key_id keys key (
              sym (
                ap (λ b. if b then some k else find_key algorithm verifies verify_one key_id keys)
                  e)
              ∙ found) in
            (Memᴰ.tail m, named, live)
      ]

  signer_lem :
      (preimage : Blob) (keys : List PublisherKey) (signature : Signature)
      → signer algorithm verifies verify_one preimage keys signature ≡ (
          if str_eq signature.algorithm algorithm
          then elim (find_key algorithm verifies verify_one signature.key_id keys) [
            | none ↦ none
            | some key ↦ if verify_one preimage signature key then some key else none
          ]
          else none)
  unfolding signer
  signer_lem preimage keys signature = refl

  signer_sound :
      (preimage : Blob) (keys : List PublisherKey) (signature : Signature) (key : PublisherKey)
      → signer algorithm verifies verify_one preimage keys signature ≡ some key
      → IsGood preimage keys signature key
  signer_sound preimage keys signature key h =
      let seen = sym (signer_lem preimage keys signature) ∙ h in
      elim (Bool-cases (str_eq signature.algorithm algorithm)) [
        | inr e ↦ never (
            sym (ap (chosen (find_key algorithm verifies verify_one signature.key_id keys)) e)
            ∙ seen)
        | inl e ↦
            let seen' =
              sym (ap (chosen (find_key algorithm verifies verify_one signature.key_id keys)) e)
              ∙ seen in
            elim (Option-cases (find_key algorithm verifies verify_one signature.key_id keys)) [
              | inl f ↦ never (sym (ap (λ o. chosen o true) f) ∙ seen')
              | inr (k, f) ↦
                  let last = sym (ap (λ o. chosen o true) f) ∙ seen' in
                  elim (Bool-cases (verify_one preimage signature k)) [
                    | inr g ↦ never (sym (ap (λ b. if b then some k else none) g) ∙ last)
                    | inl g ↦
                        let same = some_inj (sym (ap (λ b. if b then some k else none) g) ∙ last) in
                        let (m, named, live) = find_key_sound signature.key_id keys k f in
                        subst (IsGood preimage keys signature) same (record {
                          known = m;
                          named = named;
                          vouches = live;
                          algorithm_is = (str_eq_iff _ _).0 e;
                          made = g;
                        })
                  ]
            ]
      ]
    where
      chosen : Option PublisherKey → Bool → Option PublisherKey
      chosen found b =
          if b
          then elim found [
            | none ↦ none
            | some key ↦ if verify_one preimage signature key then some key else none
          ]
          else none

      never : {B : Type 0} {k : PublisherKey} → none ≡ some k → B
      never e = cc

  verify_any_cons :
      (preimage : Blob) (s : Signature) (signatures : List Signature) (keys : List PublisherKey)
      → verify_any algorithm verifies verify_one preimage (s ∷ signatures) keys
        ≡ (elim (signer algorithm verifies verify_one preimage keys s) [
          | some key ↦ some key
          | none ↦ verify_any algorithm verifies verify_one preimage signatures keys
        ])
  unfolding verify_any
  verify_any_cons preimage s signatures keys = refl

  verify_any_nil :
      (preimage : Blob) (keys : List PublisherKey)
      → verify_any algorithm verifies verify_one preimage [] keys ≡ none
  unfolding verify_any
  verify_any_nil preimage keys = refl

  -- A set of signatures is accepted with a key only when one of them is good: it names one of the keys,
  -- which still vouches, uses the one algorithm, and the key has made it. It is refused
  -- only when no signature has a signer.
  pub verify_any-IsGood :
      (preimage : Blob) (signatures : List Signature) (keys : List PublisherKey)
      → ((key : PublisherKey) × (signature : Signature) × (verify_any algorithm verifies verify_one
              preimage signatures keys
            ≡ some key)
          × Memᴰ signature signatures
          × IsGood preimage keys signature key)
        ⊎ ((verify_any algorithm verifies verify_one preimage signatures keys ≡ none)
            × All
                (λ signature. signer algorithm verifies verify_one preimage keys signature ≡ none)
                signatures)
  verify_any-IsGood preimage [] keys = inr (verify_any_nil preimage keys, tt)
  verify_any-IsGood preimage (s ∷ signatures) keys =
      elim (Option-cases (signer algorithm verifies verify_one preimage keys s)) [
        | inr (key, e) ↦ inl (
          key,
          s,
          verify_any_cons preimage s signatures keys ∙ rw e,
          Memᴰ.head refl,
          signer_sound preimage keys s key e,
        )
        | inl e ↦ elim (verify_any-IsGood preimage signatures keys) [
          | inl (key, signature, h, m, good) ↦ inl (
            key,
            signature,
            verify_any_cons preimage s signatures keys ∙ rw e h,
            Memᴰ.tail m,
            good,
          )
          | inr (h, all_none) ↦
              inr (verify_any_cons preimage s signatures keys ∙ rw e h, (e, all_none))
        ]
      ]
