-- ===== src/Text/Search.antt =====
-- Prefixes, suffixes and splitting.
use mathlib.Core.List.{reverse-append, reverse-reverse}
use zed_api_server_rs.Prelude.{
  inl, inr, sym, ap, reverse, ◌≡⟨◌⟩◌, ◌∎, true, all, not, ◌==◌, Option-cases, ℕ, ◌≡◌, refl, ◌≢◌,
  none, some, [], ◌∷◌, ◌++◌, arith, ==_refl, All,
}
use zed_api_server_rs.Text.{
  Str, strip_prefix, split_once_char, rsplit_once_char, starts_with, ends_with,
}

pub strip_prefix-append : (p s : Str) → strip_prefix (p ++ s) p ≡ some s
unfolding strip_prefix
strip_prefix-append [] s = refl
strip_prefix-append (c ∷ p) s = rw (==_refl c) (strip_prefix-append p s)

pub strip_prefix_sound : (s p : Str) {r : Str} → strip_prefix s p ≡ some r → s ≡ p ++ r
unfolding strip_prefix
strip_prefix_sound s [] h = ground arith
strip_prefix_sound [] (c ∷ p) h = cc
strip_prefix_sound (d ∷ s) (c ∷ p) {r} h = ground (arith, strip_prefix_sound s p {r = r})

-- No member equals the character.
abbrev pub Lacks : ℕ → Str → Type 0
Lacks d s = All (λ c. c ≢ d) s

-- The test that a text lacks a character.
pub Lacks-test : (d : ℕ) (s : Str) → all (λ c. not (c == d)) s ≡ true → Lacks d s
Lacks-test d [] h = tt
Lacks-test d (c ∷ s) h = (ground arith, Lacks-test d s (ground arith))

pub split_once_char_lem :
    (s t : Str) (d : ℕ) → Lacks d s → split_once_char (s ++ d ∷ t) d ≡ some (s, t)
unfolding split_once_char
split_once_char_lem [] t d h = rw (==_refl d)
split_once_char_lem (c ∷ s) t d (p, h) = ground (arith, split_once_char_lem s t d h)

pub split_once_char_sound :
    (s a b : Str) (d : ℕ) → split_once_char s d ≡ some (a, b) → s ≡ a ++ d ∷ b
unfolding split_once_char
split_once_char_sound [] a b d h = cc
split_once_char_sound (c ∷ s) a b d h = elim (Option-cases (split_once_char s d)) [
  | inl missing ↦ ground arith
  | inr ((x, y), e) ↦ let later = split_once_char_sound s x y d e in ground arith
]

pub split_once_char-none : (s : Str) (d : ℕ) → Lacks d s → split_once_char s d ≡ none
unfolding split_once_char
split_once_char-none [] d h = refl
split_once_char-none (c ∷ s) d (p, h) = ground (arith, split_once_char-none s d h)

pub rsplit_once_char-none : (s : Str) (d : ℕ) → Lacks d s → rsplit_once_char s d ≡ none
unfolding rsplit_once_char
rsplit_once_char-none [] d h = refl
rsplit_once_char-none (c ∷ s) d (p, h) = ground (arith, rsplit_once_char-none s d h)

pub rsplit_once_char_lem :
    (s t : Str) (d : ℕ) → Lacks d t → rsplit_once_char (s ++ d ∷ t) d ≡ some (s, t)
unfolding rsplit_once_char
rsplit_once_char_lem [] t d h = ground (arith, rsplit_once_char-none t d h)
rsplit_once_char_lem (c ∷ s) t d h = ground (arith, rsplit_once_char_lem s t d h)

-- What a passed test of a prefix or a suffix says.
pub starts_with_parts : (s p : Str) → starts_with s p ≡ true → (r : Str) × (s ≡ p ++ r)
unfolding starts_with
starts_with_parts s p h = elim (Option-cases (strip_prefix s p)) [
  | inl missing ↦ cc (rw missing at h)
  | inr (r, e) ↦ (r, strip_prefix_sound s p e)
]

pub ends_with_parts : (s p : Str) → ends_with s p ≡ true → (r : Str) × (s ≡ r ++ p)
unfolding ends_with
ends_with_parts s p h =
    let (r, e) = starts_with_parts (reverse s) (reverse p) h in
    (
      reverse r,
      s
          ≡⟨ sym (reverse-reverse s) ⟩ reverse (reverse s)
          ≡⟨ ap reverse e ⟩ reverse (reverse p ++ r)
          ≡⟨ reverse-append (reverse p) r ⟩ reverse r ++ reverse (reverse p)
          ≡⟨ ap (λ u. reverse r ++ u) (reverse-reverse p) ⟩ reverse r ++ p ∎,
    )

pub starts_with-append_front : (p s : Str) → starts_with (p ++ s) p ≡ true
unfolding starts_with
starts_with-append_front p s = rw (strip_prefix-append p s)

pub ends_with-append : (s p : Str) → ends_with (s ++ p) p ≡ true
unfolding ends_with
ends_with-append s p = rw (reverse-append s p) (starts_with-append_front (reverse p) (reverse s))
