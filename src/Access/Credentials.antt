-- ===== src/Access/Credentials.antt =====
-- Which tokens `require_token` of src/auth.rs accepts.
use mathlib.Core.List.{Memᴰ}
use zed_api_server_rs.Prelude.{
  ◌≢◌, ◌<◌, ◌++◌, ◌∙◌, sym, ap, All, arith, is_empty, ℕ, ◌≡◌, refl, subst, ◌⊎◌, inl, inr, Bool,
  true, false, Option, none, some, List, [], ◌∷◌, Bool-cases, Option-cases, if◌then◌else◌,
}
use zed_api_server_rs.Text.{Str, str, str_eq, strip_prefix, trim, is_whitespace}
use zed_api_server_rs.Text.Search.{strip_prefix_sound}
use zed_api_server_rs.Text.Trim.{trim_parts}
use zed_api_server_rs.Text.Equality.{str_eq_iff}
use zed_api_server_rs.Audit.{Token}
use zed_api_server_rs.Access.{
  ApiResult, ok, err, ◌>>=◌, unauthorized, database_error, bearer_token, one, query, is_expired,
  is_some, require_token,
}

some-inj {ℓ} : {A : Type ℓ} {a b : A} → some a ≡ some b → a ≡ b
some-inj e = cc

module _ {ℓ} {A : Type ℓ} (p : A → Bool) where
  -- A row that a query finds is one of the rows, and passes the filter.
  pub one_sound : (rows : List A) (a : A) → one p rows ≡ some a → Memᴰ a rows × (p a ≡ true)
  one_sound [] a h = cc
  one_sound (x ∷ rows) a h = elim (Bool-cases (p x)) [
    | inl found ↦
        let e = some-inj (rw found at h) in
        (subst (λ b. Memᴰ b (x ∷ rows)) e (Memᴰ.head refl), subst (λ b. p b ≡ true) e found)
    | inr other ↦ let (m, h') = one_sound rows a (rw other at h) in (Memᴰ.tail m, h')
  ]

is_some-false {ℓ} : {A : Type ℓ} (o : Option A) → is_some o ≡ false → o ≡ none
is_some-false none h = refl
is_some-false (some a) h = cc

-- An expiry, if there is one, is still to come.
abbrev pub IsAhead : ℕ → Option ℕ → Type 0
IsAhead now none = Unit
IsAhead now (some at) = now < at

-- A token that is neither revoked nor past its expiry.
abbrev pub IsLive : ℕ → Token → Type 0
IsLive now row =
    (row.revoked_at ≡ none) × (is_expired now row.expires_at ≡ false) × IsAhead now row.expires_at

ahead : (now : ℕ) (o : Option ℕ) → is_expired now o ≡ false → IsAhead now o
ahead now none h = tt
ahead now (some at) h = ground arith

-- The header carries the credential, behind `Bearer ` and with blanks around it at most.
abbrev pub Bears : Option Str → Str → Type 0
Bears header plaintext =
    (front : Str) × (behind : Str) × All (λ c. is_whitespace c ≡ true) front
    × All (λ c. is_whitespace c ≡ true) behind
    × (plaintext ≢ [])
    × (header ≡ some (str "Bearer " ++ (front ++ (plaintext ++ behind))))

kept_credential :
    (text plaintext : Str)
    → ◌≡◌ {A = Option Str} (if is_empty text then none else some text) (some plaintext)
    → (text ≢ []) × (text ≡ plaintext)
kept_credential [] plaintext h = cc
kept_credential (c ∷ text) plaintext h = ((λ e. cc), cc)

bearer_token-Bears :
    (header : Option Str) (plaintext : Str)
    → bearer_token header ≡ some plaintext
    → Bears header plaintext
unfolding bearer_token
bearer_token-Bears none plaintext h = cc
bearer_token-Bears (some text) plaintext h =
    elim (Option-cases (strip_prefix text (str "Bearer "))) [
      | inl missing ↦ cc
      | inr (credential, e) ↦
          let found : (if is_empty (trim credential) then none else some (trim credential))
              ≡ some plaintext =
            sym (
              ap
                (λ (o : Option Str). elim o [
                  | none ↦ none
                  | some c ↦ if is_empty (trim c) then none else some (trim c)
                ])
                e)
            ∙ h in
          let (given, same) = kept_credential (trim credential) plaintext found in
          let (front, behind, blank, blanks, parts) = trim_parts credential in
          (
            front,
            behind,
            blank,
            blanks,
            (λ none_. given (same ∙ none_)),
            ap some (
                strip_prefix_sound text (str "Bearer ") e
                ∙ ap (λ t. str "Bearer " ++ t) (parts ∙ ap (λ t. front ++ (t ++ behind)) same)),
          )
    ]

pub require_token_lem :
    (hash_token : Str → Str) (now : ℕ) (db_fails : Bool) (tokens : List Token) (header : Option Str)
    → require_token hash_token now db_fails tokens header ≡ (elim (bearer_token header) [
      | none ↦ err unauthorized
      | some plaintext ↦
          query db_fails (one (λ t. str_eq t.token_hash (hash_token plaintext)) tokens) unauthorized
          >>= (λ row.
              if is_some row.revoked_at
              then err unauthorized
              else if is_expired now row.expires_at
              then err unauthorized
              else ok row)
    ])
unfolding require_token
require_token_lem hash_token now db_fails tokens header = refl

-- What each answer says of the credential.
abbrev pub Vetted : (Str → Str) → ℕ → Bool → List Token → Option Str → ApiResult Token → Type 0
Vetted hash_token now db_fails tokens header (ok row) =
    (plaintext : Str) × (bearer_token header ≡ some plaintext)
    × Bears header plaintext
    × Memᴰ row tokens
    × (row.token_hash ≡ hash_token plaintext)
    × IsLive now row
Vetted hash_token now db_fails tokens header (err e) =
    (e ≡ unauthorized) ⊎ ((e ≡ database_error) × (db_fails ≡ true))

-- The check of a credential accepts only a stored token whose hash is that of the credential that
-- the header carries behind `Bearer `, that is not revoked and whose expiry, if it has one, is still to come; every refusal is the same
-- answer, whatever the reason, except where the database fails.
pub require_token-Vetted :
    (hash_token : Str → Str) (now : ℕ) (db_fails : Bool) (tokens : List Token) (header : Option Str)
    → Vetted hash_token now db_fails tokens header
        (require_token hash_token now db_fails tokens header)
require_token-Vetted hash_token now db_fails tokens header =
    elim (Option-cases (bearer_token header)) [
      | inl missing ↦
          rw (require_token_lem hash_token now db_fails tokens header, missing) (inl refl)
      | inr (plaintext, e) ↦
          rw (require_token_lem hash_token now db_fails tokens header, e)
            (by_query plaintext e db_fails)
    ]
  where
    by_row :
        (plaintext : Str)
        → bearer_token header ≡ some plaintext
        → (db_fails : Bool) (row : Token) → Memᴰ row tokens
        → (row.token_hash ≡ hash_token plaintext)
        → Vetted hash_token now db_fails tokens header (
            if is_some row.revoked_at
            then err unauthorized
            else if is_expired now row.expires_at
            then err unauthorized
            else ok row)
    by_row plaintext e db_fails row member hashed = elim (Bool-cases (is_some row.revoked_at)) [
      | inl revoked ↦ rw revoked (inl refl)
      | inr kept ↦ elim (Bool-cases (is_expired now row.expires_at)) [
        | inl expired ↦ rw (kept, expired) (inl refl)
        | inr live ↦
            rw (kept, live)
              (
                plaintext,
                e,
                bearer_token-Bears header plaintext e,
                member,
                hashed,
                (is_some-false row.revoked_at kept, live, ahead now row.expires_at live),
              )
      ]
    ]

    by_query :
        (plaintext : Str)
        → bearer_token header ≡ some plaintext
        → (db_fails : Bool)
        → Vetted hash_token now db_fails tokens header (
            query db_fails
              (one (λ t. str_eq t.token_hash (hash_token plaintext)) tokens)
              unauthorized
            >>= (λ row.
                if is_some row.revoked_at
                then err unauthorized
                else if is_expired now row.expires_at
                then err unauthorized
                else ok row))
    by_query plaintext e true = inr (refl, refl)
    by_query plaintext e false =
        elim (Option-cases (one (λ t. str_eq t.token_hash (hash_token plaintext)) tokens)) [
          | inl unknown ↦ rw unknown (inl refl)
          | inr (row, found) ↦
              let (member, same) =
                one_sound (λ t. str_eq t.token_hash (hash_token plaintext)) tokens row found in
              rw found (
                by_row plaintext e false row member
                  ((str_eq_iff row.token_hash (hash_token plaintext)).0 same))
        ]
