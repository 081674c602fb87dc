-- ===== src/Text/Equality.antt =====
-- Equality tests on texts, and case folding.
use zed_api_server_rs.Prelude.{ℕ, ◌≡◌, refl, ◌↔◌, inl, inr, true, false, [], ◌∷◌, Bool-cases, arith}
use zed_api_server_rs.Text.{Str, str_eq, lower, to_ascii_lowercase}

str_eq→eq : (s t : Str) → str_eq s t ≡ true → s ≡ t
unfolding str_eq
str_eq→eq [] [] h = refl
str_eq→eq [] (y ∷ t) h = cc
str_eq→eq (x ∷ s) [] h = cc
str_eq→eq (x ∷ s) (y ∷ t) h = ground (arith, str_eq→eq s t)

pub str_eq_refl : (s : Str) → str_eq s s ≡ true
unfolding str_eq
str_eq_refl [] = refl
str_eq_refl (x ∷ s) = ground (arith, str_eq_refl s)

pub str_eq_iff : (s t : Str) → (str_eq s t ≡ true) ↔ (s ≡ t)
str_eq_iff s t = (str_eq→eq s t, λ e. rw e (str_eq_refl t))

-- The test is false exactly where the texts differ.
pub str_eq-false : (s t : Str) → str_eq s t ≡ false → ¬ (s ≡ t)
str_eq-false s t h e = cc ((str_eq_iff s t).1 e, h)

pub str_eq_ne : (s t : Str) → ¬ (s ≡ t) → str_eq s t ≡ false
str_eq_ne s t h = elim (Bool-cases (str_eq s t)) [
  | inl e ↦ elim (h ((str_eq_iff s t).0 e)) [ ]
  | inr e ↦ e
]

lower_idem : (c : ℕ) → lower (lower c) ≡ lower c
unfolding lower
lower_idem c = ground arith

pub to_ascii_lowercase_idem :
    (s : Str) → to_ascii_lowercase (to_ascii_lowercase s) ≡ to_ascii_lowercase s
unfolding to_ascii_lowercase
to_ascii_lowercase_idem [] = refl
to_ascii_lowercase_idem (c ∷ s) = cc (lower_idem c, to_ascii_lowercase_idem s)
