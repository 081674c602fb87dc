-- ===== src/GraphExports/Protobuf/Varint.antt =====
-- The variable-length numbers of src/routes/graph_exports/protobuf.rs, and a reader for them.
use zed_api_server_rs.Prelude.{
  ℕ, zero, suc, ◌+◌, ◌-◌, ◌*◌, ◌/◌, ◌%◌, ◌^◌, ◌≤◌, ◌<◌, ◌≡◌, ap, ◌∙◌, inl, inr, true, false, Option,
  none, some, List, [], ◌∷◌, ◌++◌, arith, ltb, length, Bool-cases, All,
}
use zed_api_server_rs.GraphExports.Protobuf.{varint, proto_varint}

-- What a byte in front adds to what the bytes behind it spell.
abbrev pub prepend : ℕ → Option (ℕ × List ℕ) → Option (ℕ × List ℕ)
prepend b none = none
prepend b (some q) = some ((b - 0x80) + 0x80 * q.0, q.1)

-- The number at the front of some bytes, and the bytes behind it.
abbrev pub read_varint : List ℕ → Option (ℕ × List ℕ)
read_varint [] = none
read_varint (b ∷ bs) = elim (ltb b 0x80) [
  | true ↦ some (b, bs)
  | false ↦ prepend b (read_varint bs)
]

varint_small : (fuel n : ℕ) → ltb n 0x80 ≡ true → varint (suc fuel) n ≡ n ∷ []
unfolding varint
varint_small fuel n h = rw (h, varint)

varint_large :
    (fuel n : ℕ)
    → ltb n 0x80 ≡ false
    → varint (suc fuel) n ≡ (n % 0x80 + 0x80) ∷ varint fuel (n / 0x80)
unfolding varint
varint_large fuel n h = rw (h, varint)

read_last : (b : ℕ) (bs : List ℕ) → ltb b 0x80 ≡ true → read_varint (b ∷ bs) ≡ some (b, bs)
read_last b bs h = rw (h, read_varint)

read_more :
    (b : ℕ) (bs : List ℕ) → ltb b 0x80 ≡ false → read_varint (b ∷ bs) ≡ prepend b (read_varint bs)
read_more b bs h = rw (h, read_varint)

read_varint-varint :
    (fuel n : ℕ) (t : List ℕ) → n < fuel → read_varint (varint fuel n ++ t) ≡ some (n, t)
read_varint-varint zero n t h = elim (impossible n h) [ ]
  where
    impossible : (n : ℕ) → n < 0 → ⊥
    impossible n h = omega (arith, h)
read_varint-varint (suc fuel) n t h = elim (Bool-cases (ltb n 0x80)) [
  | inl small ↦ rw (varint_small fuel n small) (read_last n t small)
  | inr large ↦ rw (varint_large fuel n large) (
      read_more (n % 0x80 + 0x80) (varint fuel (n / 0x80) ++ t) (ground arith)
      ∙ ap (prepend (n % 0x80 + 0x80))
          (read_varint-varint fuel (n / 0x80) t (smaller n fuel large h))
      ∙ ap (λ k. some (k, t)) (omega arith))
]
  where
    smaller : (n fuel : ℕ) → ltb n 0x80 ≡ false → n < suc fuel → n / 0x80 < fuel
    smaller n fuel large h = ground arith

-- The fuel of `proto_varint` is enough for every number: read back, the bytes spell the number, and
-- what follows is untouched.
pub read_varint-proto_varint :
    (n : ℕ) (t : List ℕ) → read_varint (proto_varint n ++ t) ≡ some (n, t)
unfolding proto_varint
read_varint-proto_varint n t = read_varint-varint (suc n) n t (omega arith)

-- The numbers below a power of 128.
abbrev pow_128 : ℕ → ℕ
pow_128 zero = 1
pow_128 (suc k) = 0x80 * pow_128 k

varint-length : (fuel n k : ℕ) → n < pow_128 (suc k) → length (varint fuel n) ≤ suc k
varint-length zero n k h = unfold varint in omega arith
varint-length (suc fuel) n k h = elim (Bool-cases (ltb n 0x80)) [
  | inl small ↦ rw (varint_small fuel n small) (omega arith)
  | inr large ↦
      rw (varint_large fuel n large) (
        longer n (length (varint fuel (n / 0x80))) k h large (λ j. varint-length fuel (n / 0x80) j))
]
  where
    longer :
        (n l k : ℕ)
        → n < pow_128 (suc k)
        → ltb n 0x80 ≡ false
        → ((j : ℕ) → n / 0x80 < pow_128 (suc j) → l ≤ suc j)
        → suc l ≤ suc k
    longer n l zero h large shorter = ground arith
    longer n l (suc k) h large shorter = omega (arith, shorter k (omega (arith, h)))

varint-bytes : (fuel n : ℕ) → All (λ b. b < 0x100) (varint fuel n)
varint-bytes zero n = unfold varint in tt
varint-bytes (suc fuel) n = elim (Bool-cases (ltb n 0x80)) [
  | inl small ↦ rw (varint_small fuel n small) (ground arith, tt)
  | inr large ↦ rw (varint_large fuel n large) (ground arith, varint-bytes fuel (n / 0x80))
]

-- A 64-bit number takes at most ten bytes, each a byte.
pub proto_varint-IsShort :
    (n : ℕ) → n < 2 ^ 64 → (length (proto_varint n) ≤ 10) × All (λ b. b < 0x100) (proto_varint n)
unfolding proto_varint
proto_varint-IsShort n h = (varint-length (suc n) n 9 (omega (arith, h)), varint-bytes (suc n) n)
