-- ===== src/Text/Trim.antt =====
-- Trimming at the end.
use mathlib.Core.List.{reverse-append, reverse-reverse, reverse-cons}
use zed_api_server_rs.Prelude.{
  ℕ, ◌≡◌, refl, sym, ap, ◌∙◌, Bool, true, false, [], ◌∷◌, ◌++◌, reverse, All, Bool-cases, inl, inr,
  All-reverse, All-append_left, subst, ◌≡⟨◌⟩◌, ◌∎,
}
use zed_api_server_rs.Text.{trim, is_whitespace, Str, drop_while, trim_end_matches}

drop_while_parts :
    (p : ℕ → Bool) (s : Str) → (t : Str) × All (λ c. p c ≡ true) t × (s ≡ t ++ drop_while p s)
unfolding drop_while
drop_while_parts p [] = ([], tt, refl)
drop_while_parts p (c ∷ s) = elim (Bool-cases (p c)) [
  | inl hit ↦ let (t, h, e) = drop_while_parts p s in (c ∷ t, (hit, h), rw hit (ap (λ u. c ∷ u) e))
  | inr miss ↦ ([], tt, rw miss)
]

-- What is trimmed off stood at the end and passes the test.
pub trim_end_parts :
    (p : ℕ → Bool) (s : Str) → (t : Str) × All (λ c. p c ≡ true) t × (s ≡ trim_end_matches p s ++ t)
unfolding trim_end_matches
trim_end_parts p s =
    let (t, h, e) = drop_while_parts p (reverse s) in
    (
      reverse t,
      All-reverse (λ c. p c ≡ true) t h,
      s
          ≡⟨ sym (reverse-reverse s) ⟩ reverse (reverse s)
          ≡⟨ ap reverse e ⟩ reverse (t ++ drop_while p (reverse s))
          ≡⟨ reverse-append t _ ⟩ reverse (drop_while p (reverse s)) ++ reverse t ∎,
    )

-- What is trimmed off stood around the rest, and is blank.
pub trim_parts :
    (s : Str)
    → (front : Str) × (behind : Str) × All (λ c. is_whitespace c ≡ true) front
      × All (λ c. is_whitespace c ≡ true) behind
      × (s ≡ front ++ (trim s ++ behind))
unfolding trim
trim_parts s =
    let (front, h, e) = drop_while_parts is_whitespace s in
    let (behind, k, f) = trim_end_parts is_whitespace (drop_while is_whitespace s) in
    (front, behind, h, k, e ∙ ap (λ u. front ++ u) f)

-- A text whose last character fails the test stays whole.
pub trim_end_keep :
    (p : ℕ → Bool) (s : Str) (c : ℕ) → p c ≡ false → trim_end_matches p (s ++ c ∷ []) ≡ s ++ c ∷ []
unfolding trim_end_matches drop_while
trim_end_keep p s c h =
    rw (reverse-append s (c ∷ []), h)
      (reverse-cons c (reverse s) ∙ ap (λ u. u ++ c ∷ []) (reverse-reverse s))

module _ {κ} (P : ℕ → Type κ) where
  All-drop_while : (p : ℕ → Bool) (s : Str) → All P s → All P (drop_while p s)
  unfolding drop_while
  All-drop_while p [] h = tt
  All-drop_while p (c ∷ s) (k, h) = elim (Bool-cases (p c)) [
    | inl dropped ↦ rw dropped (All-drop_while p s h)
    | inr kept ↦ rw kept (k, h)
  ]

  -- Trimming keeps what holds of every character.
  pub All-trim : (s : Str) → All P s → All P (trim s)
  unfolding trim
  All-trim s h =
      let (t, _, e) = trim_end_parts is_whitespace (drop_while is_whitespace s) in
      All-append_left P (trim_end_matches is_whitespace (drop_while is_whitespace s)) t
        (subst (λ u. All P u) e (All-drop_while is_whitespace s h))
