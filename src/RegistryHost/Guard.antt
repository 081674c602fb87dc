-- ===== src/RegistryHost/Guard.antt =====
-- The guard at the top of `registry_route` of src/registry_host.rs.
use zed_api_server_rs.Prelude.{
  ◌≡◌, ◌≢◌, ℕ, ◌≤◌, ◌∙◌, ◌||◌, ltb, is_empty, refl, sym, ap, inl, inr, true, false, [], ◌∷◌, ◌++◌,
  arith, Bool-cases,
}
use zed_api_server_rs.Text.{Str, str, len, contains, starts_with}
use zed_api_server_rs.Text.Search.{starts_with_parts}
use zed_api_server_rs.RegistryHost.{is_suspicious}

-- No part of a text is the given one.
abbrev pub Avoids : Str → Str → Type 0
Avoids p s = (a b : Str) → s ≢ a ++ p ++ b

-- A path that the guard lets through: not empty, at most 2048 bytes long, and without an escape, a
-- backslash, two dots or two slashes in a row.
pub record IsClean (path : Str) : Type 0 where
  pub given : path ≢ []
  pub short : len path ≤ 2048
  pub no_escape : Avoids (b'%' ∷ []) path
  pub no_backslash : Avoids (b'\\' ∷ []) path
  pub no_dots : Avoids (b'.' ∷ b'.' ∷ []) path
  pub no_slashes : Avoids (b'/' ∷ b'/' ∷ []) path

contains_parts : (s p : Str) → contains s p ≡ true → (a : Str) × (b : Str) × (s ≡ a ++ p ++ b)
unfolding contains
contains_parts [] p h = let (b, e) = starts_with_parts [] p h in ([], b, e)
contains_parts (c ∷ s) p h = elim (Bool-cases (starts_with (c ∷ s) p)) [
  | inl here ↦ let (b, e) = starts_with_parts (c ∷ s) p here in ([], b, e)
  | inr later ↦
      let (a, b, e) = contains_parts s p (sym (ap (λ t. t || contains s p) later) ∙ h) in
      (c ∷ a, b, ap (λ t. c ∷ t) e)
]

Avoids-contains : (p s : Str) → Avoids p s → contains s p ≡ false
Avoids-contains p s h = elim (Bool-cases (contains s p)) [
  | inl found ↦ let (a, b, e) = contains_parts s p found in absurd (h a b e)
  | inr missing ↦ missing
]

pub clean_path : (path : Str) → IsClean path → is_suspicious path ≡ false
unfolding is_suspicious str
clean_path path clean = rw (
  given path clean.given,
  short (len path) clean.short,
  Avoids-contains (b'%' ∷ []) path clean.no_escape,
  Avoids-contains (b'.' ∷ b'.' ∷ []) path clean.no_dots,
  Avoids-contains (b'\\' ∷ []) path clean.no_backslash,
  Avoids-contains (b'/' ∷ b'/' ∷ []) path clean.no_slashes,
)
  where
    given : (s : Str) → s ≢ [] → is_empty s ≡ false
    given [] ne = absurd (ne refl)
    given (c ∷ s) ne = refl

    short : (n : ℕ) → n ≤ 2048 → ltb 2048 n ≡ false
    short n h = ground arith
