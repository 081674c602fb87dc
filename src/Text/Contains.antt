-- ===== src/Text/Contains.antt =====
-- Searching for a text in a text, and the part in front of its first occurrence.
use zed_api_server_rs.Prelude.{
  ℕ, zero, suc, ◌≡◌, ◌≢◌, refl, ap, inl, inr, true, false, none, some, [], ◌∷◌, ◌++◌, arith,
  Bool-cases, Option-cases, ||_false, append_assoc, take, drop, subst,
}
use zed_api_server_rs.Text.{Str, before, contains, starts_with, strip_prefix, split_once}
use zed_api_server_rs.Text.Search.{strip_prefix-append, starts_with_parts}

pub starts_with-append : (a b p : Str) → starts_with a p ≡ true → starts_with (a ++ b) p ≡ true
unfolding starts_with
starts_with-append a b p h =
    let (r, e) = starts_with_parts a p h in
    rw (e, append_assoc p r b, strip_prefix-append p (r ++ b))

starts_with_not : (a b p : Str) → starts_with (a ++ b) p ≡ false → starts_with a p ≡ false
starts_with_not a b p h = elim (Bool-cases (starts_with a p)) [
  | inl starts ↦ cc (starts_with-append a b p starts)
  | inr misses ↦ misses
]

contains_starts : (s p : Str) → contains s p ≡ false → starts_with s p ≡ false
unfolding contains
contains_starts [] p h = h
contains_starts (c ∷ s) p h = ground arith

-- A part from the front contains nothing that the text does not.
pub contains-prefix : (a b p : Str) → contains (a ++ b) p ≡ false → contains a p ≡ false
unfolding contains
contains-prefix [] b p h = starts_with_not [] b p (contains_starts b p h)
contains-prefix (c ∷ a) b p h =
    let (here, later) = ||_false (starts_with (c ∷ (a ++ b)) p) (contains (a ++ b) p) h in
    rw (starts_with_not (c ∷ a) b p here, contains-prefix a b p later)

pub take-drop : (n : ℕ) (s : Str) → take n s ++ drop n s ≡ s
take-drop zero s = refl
take-drop (suc n) [] = refl
take-drop (suc n) (c ∷ s) = ap (λ t. c ∷ t) (take-drop n s)

pub contains-take : (n : ℕ) (s p : Str) → contains s p ≡ false → contains (take n s) p ≡ false
contains-take n s p h = contains-prefix (take n s) (drop n s) p (rw (take-drop n s) h)

before_cons :
    (c : ℕ) (s p : Str)
    → strip_prefix (c ∷ s) p ≡ none
    → before (c ∷ s) (split_once (c ∷ s) p) ≡ c ∷ before s (split_once s p)
unfolding split_once
before_cons c s p h = elim (Option-cases (split_once s p)) [
  | inl missing ↦ rw (h, missing, split_once)
  | inr (q, e) ↦ rw (h, e, split_once)
]

split_once_here :
    (c : ℕ) (s p r : Str) → strip_prefix (c ∷ s) p ≡ some r → split_once (c ∷ s) p ≡ some ([], r)
unfolding split_once
split_once_here c s p r h = rw (h, split_once)

empty_starts : (p : Str) → p ≢ [] → starts_with [] p ≡ false
unfolding starts_with strip_prefix
empty_starts [] ne = elim (ne refl) [ ]
empty_starts (d ∷ p) ne = refl

empty_contains : (p : Str) → p ≢ [] → contains [] p ≡ false
unfolding contains
empty_contains p ne = empty_starts p ne

before_nil : (p : Str) → before [] (split_once [] p) ≡ []
unfolding split_once strip_prefix
before_nil [] = refl
before_nil (d ∷ p) = refl

-- What `split_once` cuts off stands behind the part in front.
pub before_prefix : (s p : Str) → (t : Str) × (s ≡ before s (split_once s p) ++ t)
before_prefix [] p = ([], rw (before_nil p))
before_prefix (c ∷ s) p = elim (Option-cases (strip_prefix (c ∷ s) p)) [
  | inl missing ↦
      let (t, e) = before_prefix s p in (t, rw (before_cons c s p missing) (ap (λ u. c ∷ u) e))
  | inr (r, e) ↦ (c ∷ s, rw (split_once_here c s p r e))
]

-- The part in front of the first occurrence of a text does not contain it.
pub before-contains : (s p : Str) → p ≢ [] → contains (before s (split_once s p)) p ≡ false
before-contains [] p ne = rw (before_nil p) (empty_contains p ne)
before-contains (c ∷ s) p ne = elim (Option-cases (strip_prefix (c ∷ s) p)) [
  | inr (r, e) ↦ rw (split_once_here c s p r e) (empty_contains p ne)
  | inl missing ↦
      let (t, parts) = before_prefix s p in
      rw (before_cons c s p missing) (
        contains_cons c (before s (split_once s p)) p
          (starts_with_not (c ∷ before s (split_once s p)) t p
            (subst (λ u. starts_with (c ∷ u) p ≡ false) parts (starts_missing (c ∷ s) p missing)))
          (before-contains s p ne))
]
  where
    starts_missing : (s p : Str) → strip_prefix s p ≡ none → starts_with s p ≡ false
    starts_missing s p h = unfold starts_with in rw h

    contains_cons :
        (c : ℕ) (s p : Str)
        → starts_with (c ∷ s) p ≡ false
        → contains s p ≡ false
        → contains (c ∷ s) p ≡ false
    contains_cons c s p h k = unfold contains in rw (h, k)

misses_none : (s p : Str) → starts_with s p ≡ false → strip_prefix s p ≡ none
unfolding starts_with
misses_none s p h = elim (Option-cases (strip_prefix s p)) [
  | inl missing ↦ missing
  | inr (r, e) ↦ cc (rw e at h)
]

-- A text without the separator is not split.
pub split_once-none : (s p : Str) → contains s p ≡ false → split_once s p ≡ none
unfolding contains
split_once-none [] p h = split_nil p (misses_none [] p h)
  where
    split_nil : (p : Str) → strip_prefix [] p ≡ none → split_once [] p ≡ none
    split_nil p e = unfold split_once in rw e
split_once-none (c ∷ s) p h =
    let (here, later) = ||_false (starts_with (c ∷ s) p) (contains s p) h in
    split_cons c s p (misses_none (c ∷ s) p here) (split_once-none s p later)
  where
    split_cons :
        (c : ℕ) (s p : Str)
        → strip_prefix (c ∷ s) p ≡ none
        → split_once s p ≡ none
        → split_once (c ∷ s) p ≡ none
    split_cons c s p e rest_none = unfold split_once in rw (e, rest_none, split_once)
