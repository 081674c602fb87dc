-- ===== src/Text/Decimal.antt =====
-- Printing numbers in decimal loses nothing.
use zed_api_server_rs.Prelude.{
  ℕ, zero, suc, ◌+◌, ◌-◌, ◌*◌, ◌/◌, ◌%◌, ◌<◌, ◌≡◌, ◌∙◌, ap, [], ◌∷◌, arith, ltb, Bool-cases, inl,
  inr, true, false,
}
use zed_api_server_rs.Text.{Str, digits, decimal}

-- The number that digits spell behind those that stand in front.
abbrev pub value : ℕ → Str → ℕ
value acc [] = acc
value acc (c ∷ s) = value (acc * 10 + (c - b'0')) s

impossible : (n : ℕ) → n < 0 → ⊥
impossible n h = omega (arith, h)

digits_small :
    (fuel n : ℕ) (tail : Str) → ltb n 10 ≡ true → digits (suc fuel) n tail ≡ (b'0' + n) ∷ tail
unfolding digits
digits_small fuel n tail h = rw (h, digits)

digits_large :
    (fuel n : ℕ) (tail : Str)
    → ltb n 10 ≡ false
    → digits (suc fuel) n tail ≡ digits fuel (n / 10) ((b'0' + n % 10) ∷ tail)
unfolding digits
digits_large fuel n tail h = rw (h, digits)

value-digits : (fuel n : ℕ) (tail : Str) → n < fuel → value 0 (digits fuel n tail) ≡ value n tail
value-digits zero n tail h = elim (impossible n h) [ ]
value-digits (suc fuel) n tail h = elim (Bool-cases (ltb n 10)) [
  | inl small ↦ rw (digits_small fuel n tail small) (ap (λ k. value k tail) (omega arith))
  | inr large ↦ rw (digits_large fuel n tail large) (
      value-digits fuel (n / 10) ((b'0' + n % 10) ∷ tail) (smaller n fuel large h)
      ∙ ap (λ k. value k tail) (omega arith))
]
  where
    smaller : (n fuel : ℕ) → ltb n 10 ≡ false → n < suc fuel → n / 10 < fuel
    smaller n fuel large h = ground arith

-- The fuel of `decimal` is enough for every number: the text spells the number.
pub value-decimal : (n : ℕ) → value 0 (decimal n) ≡ n
unfolding decimal
value-decimal n = value-digits (suc n) n [] (omega arith)
