-- ===== src/Text/Parts.antt =====
-- What holds of every character of a text holds of the parts that the splitting methods cut out.
use zed_api_server_rs.Prelude.{
  ℕ, ◌≡◌, ◌≢◌, refl, inl, inr, Bool, true, false, some, List, [], ◌∷◌, ◌++◌, arith, ◌==◌,
  Bool-cases, Option-cases, All, All-append_right, all, not, subst,
}
use zed_api_server_rs.Text.{
  Str, before, behind, split, cons_head, strip_prefix, split_once_char, rsplit_once_char,
}
use zed_api_server_rs.Text.Search.{strip_prefix_sound}

different : (c d : ℕ) → (c == d) ≡ false → c ≢ d
different c d h = ground arith

-- The test that no character of a text passes a test.
pub All-test : (p : ℕ → Bool) (s : Str) → all (λ c. not (p c)) s ≡ true → All (λ c. p c ≡ false) s
All-test p [] h = tt
All-test p (c ∷ s) h = (ground arith, All-test p s (ground arith))

-- The first of the parts that `split` answers.
abbrev pub first_part : List Str → Str
first_part [] = []
first_part (part ∷ parts) = part

pub first_part_cons :
    (c : ℕ) (parts : List Str) → first_part (cons_head c parts) ≡ c ∷ first_part parts
first_part_cons c [] = refl
first_part_cons c (part ∷ parts) = refl

pub All-first_part :
    (sep : ℕ → Bool) (s : Str) → All (λ c. sep c ≡ false) (first_part (split sep s))
unfolding split
All-first_part sep [] = tt
All-first_part sep (c ∷ s) = elim (Bool-cases (sep c)) [
  | inl ends ↦ rw ends tt
  | inr goes ↦ rw (goes, first_part_cons c (split sep s)) (goes, All-first_part sep s)
]

-- Up to the first separator, whatever stands behind it.
pub first_part_cut :
    (sep : ℕ → Bool) (s t : Str) (d : ℕ)
    → All (λ c. sep c ≡ false) s
    → sep d ≡ true
    → first_part (split sep (s ++ d ∷ t)) ≡ s
unfolding split
first_part_cut sep [] t d h e = rw e
first_part_cut sep (c ∷ s) t d (k, h) e =
    rw (k, first_part_cons c (split sep (s ++ d ∷ t)), first_part_cut sep s t d h e)

pub first_part-All :
    (sep : ℕ → Bool) (s : Str) → All (λ c. sep c ≡ false) s → first_part (split sep s) ≡ s
unfolding split
first_part-All sep [] h = refl
first_part-All sep (c ∷ s) (k, h) = rw (k, first_part_cons c (split sep s), first_part-All sep s h)

module _ {κ} (P : ℕ → Type κ) where
  pub All-before : (s : Str) (d : ℕ) → All P s → All P (before s (split_once_char s d))
  unfolding split_once_char
  All-before [] d h = tt
  All-before (c ∷ s) d (k, h) = elim (Bool-cases (c == d)) [
    | inl same ↦ rw same tt
    | inr other ↦ elim (Option-cases (split_once_char s d)) [
      | inl missing ↦ rw (other, missing) (k, h)
      | inr (q, e) ↦ rw (other, e) (k, subst (λ o. All P (before s o)) e (All-before s d h))
    ]
  ]

  pub All-strip_prefix : (s p : Str) {r : Str} → strip_prefix s p ≡ some r → All P s → All P r
  All-strip_prefix s p {r} e h =
      All-append_right P p r (subst (λ t. All P t) (strip_prefix_sound s p e) h)

  -- Behind the last separator there is none.
  pub All-behind :
      (s : Str) (d : ℕ) → All P s → All (λ c. P c × (c ≢ d)) (behind s (rsplit_once_char s d))
  unfolding rsplit_once_char
  All-behind [] d h = tt
  All-behind (c ∷ s) d (k, h) = elim (Option-cases (rsplit_once_char s d)) [
    | inr (q, e) ↦
        rw (e, behind, rsplit_once_char)
          (subst (λ o. All (λ c. P c × (c ≢ d)) (behind s o)) e (All-behind s d h))
    | inl missing ↦
        let later : All (λ c. P c × (c ≢ d)) s =
          subst (λ o. All (λ c. P c × (c ≢ d)) (behind s o)) missing (All-behind s d h) in
        elim (Bool-cases (c == d)) [
          | inl same ↦ rw (missing, rsplit_once_char, same) later
          | inr other ↦ rw (missing, rsplit_once_char, other) ((k, different c d other), later)
        ]
  ]
