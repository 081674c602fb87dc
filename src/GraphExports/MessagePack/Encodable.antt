-- ===== src/GraphExports/MessagePack/Encodable.antt =====
-- src/routes/graph_exports/messagepack.rs: which values have a MessagePack encoding.
use zed_api_server_rs.Prelude.{
  ℕ, ◌+◌, ◌<◌, ◌≤◌, ◌^◌, Bool, true, false, List, [], ◌∷◌, ◌++◌, if◌then◌else◌, ltb, length, ◌≡◌,
  refl, ap, ◌∙◌, ◌⊎◌, inl, inr, Bool-cases, arith,
}
use zed_api_server_rs.Text.{Str, bytes}
use zed_api_server_rs.Access.{ApiResult, ok, err, ◌>>=◌, internal_error}
use zed_api_server_rs.GraphExports.MessagePack.{
  Value, Items, Members, null, boolean, unsigned, negative, fraction, text, array, map_of, nil,
  cons, end, member, to_be_bytes, long_length, messagepack_string, messagepack_array_len,
  messagepack_map_len, items_len, members_len, ◌then_◌, messagepack_value, messagepack_items,
  messagepack_members,
}

-- Whole numbers, and texts and collections whose size fits 32 bits.
unfoldable mutual
  pub Encodable : Value → Type 0
  Encodable null = Unit
  Encodable (boolean b) = Unit
  Encodable (unsigned n) = Unit
  Encodable (negative n) = Unit
  Encodable fraction = ⊥
  Encodable (text s) = length (bytes s) < 2 ^ 32
  Encodable (array items) = (items_len items < 2 ^ 32) × EncodableItems items
  Encodable (map_of members) = (members_len members < 2 ^ 32) × EncodableMembers members

  pub EncodableItems : Items → Type 0
  EncodableItems nil = Unit
  EncodableItems (cons value items) = Encodable value × EncodableItems items

  pub EncodableMembers : Members → Type 0
  EncodableMembers end = Unit
  EncodableMembers (member key value members) =
      (length (bytes key) < 2 ^ 32) × (Encodable value × EncodableMembers members)

-- An output exactly when a condition holds, and the one error when it does not.
abbrev pub Decides : Type 0 → ApiResult (List ℕ) → Type 0
Decides P result =
    (P × (output : List ℕ) × (result ≡ ok output)) ⊎ ((P → ⊥) × (result ≡ err internal_error))

Decides-then :
    (P Q : Type 0) (a b : ApiResult (List ℕ))
    → Decides P a
    → Decides Q b
    → Decides (P × Q) (a then_ b)
Decides-then P Q a b (inr (no_p, e)) h = inr ((λ (p, q). no_p p), ap (λ r. r then_ b) e)
Decides-then P Q a b (inl (p, front, e)) (inr (no_q, e')) =
    inr
      ((λ (p, q). no_q q), ap (λ r. r then_ b) e ∙ ap (λ r. r >>= (λ back. ok (front ++ back))) e')
Decides-then P Q a b (inl (p, front, e)) (inl (q, back, e')) =
    inl (
      (p, q),
      front ++ back,
      ap (λ r. r then_ b) e ∙ ap (λ r. r >>= (λ back. ok (front ++ back))) e',
    )

long_length-Decides : (marker n : ℕ) → Decides (n < 2 ^ 32) (long_length marker n)
unfolding long_length
long_length-Decides marker n = elim (Bool-cases (ltb n 0x100000000)) [
  | inl e ↦ inl (below n e, marker ∷ to_be_bytes 4 n, long_length_lem ∙ ap chosen e)
  | inr e ↦ inr ((λ h. above n e h), long_length_lem ∙ ap chosen e)
]
  where
    chosen : Bool → ApiResult (List ℕ)
    chosen b = if b then ok (marker ∷ to_be_bytes 4 n) else err internal_error

    below : (n : ℕ) → ltb n 0x100000000 ≡ true → n < 2 ^ 32
    below n e = ground arith

    above : (n : ℕ) → ltb n 0x100000000 ≡ false → n < 2 ^ 32 → ⊥
    above n e h = ground arith

    long_length_lem : long_length marker n ≡ chosen (ltb n 0x100000000)
    long_length_lem = refl

-- A length with short formats below some bounds.
short-Decides :
    (n : ℕ) (b : Bool) (short : List ℕ) (rest : ApiResult (List ℕ))
    → (b ≡ true → n < 2 ^ 32)
    → Decides (n < 2 ^ 32) rest
    → Decides (n < 2 ^ 32) (if b then ok short else rest)
short-Decides n true short rest fits h = inl (fits refl, short, refl)
short-Decides n false short rest fits h = h

fits : (n m : ℕ) → m ≤ 2 ^ 32 → ltb n m ≡ true → n < 2 ^ 32
fits n m h e = ground arith

array_len-Decides : (n : ℕ) → Decides (n < 2 ^ 32) (messagepack_array_len n)
unfolding messagepack_array_len
array_len-Decides n = short-Decides n (ltb n 16) ((0x90 + n) ∷ []) _ (fits n 16 (omega arith)) (
    short-Decides n (ltb n 0x10000) (0xdc ∷ to_be_bytes 2 n) _ (fits n 0x10000 (omega arith))
      (long_length-Decides 0xdd n))

map_len-Decides : (n : ℕ) → Decides (n < 2 ^ 32) (messagepack_map_len n)
unfolding messagepack_map_len
map_len-Decides n = short-Decides n (ltb n 16) ((0x80 + n) ∷ []) _ (fits n 16 (omega arith)) (
    short-Decides n (ltb n 0x10000) (0xde ∷ to_be_bytes 2 n) _ (fits n 0x10000 (omega arith))
      (long_length-Decides 0xdf n))

-- The header of a text, and the text after it.
followed :
    (P : Type 0) (r : ApiResult (List ℕ)) (s : List ℕ)
    → Decides P r
    → Decides P (r >>= (λ header. ok (header ++ s)))
followed P r s (inl (p, header, e)) =
    inl (p, header ++ s, ap (λ a. a >>= (λ header. ok (header ++ s))) e)
followed P r s (inr (no_p, e)) = inr (no_p, ap (λ a. a >>= (λ header. ok (header ++ s))) e)

string-Decides : (s : Str) → Decides (length (bytes s) < 2 ^ 32) (messagepack_string s)
unfolding messagepack_string
string-Decides s =
    let n = length (bytes s) in
    followed (n < 2 ^ 32) _ (bytes s) (
      short-Decides n (ltb n 32) ((0xa0 + n) ∷ []) _ (fits n 32 (omega arith)) (
        short-Decides n (ltb n 0x100) (0xd9 ∷ n ∷ []) _ (fits n 0x100 (omega arith)) (
          short-Decides n (ltb n 0x10000) (0xda ∷ to_be_bytes 2 n) _ (fits n 0x10000 (omega arith))
            (long_length-Decides 0xdb n))))

mutual
  unfolding Encodable messagepack_value

  value-Decides : (value : Value) → Decides (Encodable value) (messagepack_value value)
  value-Decides null = inl (tt, _, refl)
  value-Decides (boolean true) = inl (tt, _, refl)
  value-Decides (boolean false) = inl (tt, _, refl)
  value-Decides (unsigned n) = inl (tt, _, refl)
  value-Decides (negative n) = inl (tt, _, refl)
  value-Decides fraction = inr ((λ h. h), refl)
  value-Decides (text s) = string-Decides s
  value-Decides (array items) =
      Decides-then (items_len items < 2 ^ 32) (EncodableItems items) _ _
        (array_len-Decides (items_len items)) (items-Decides items)
  value-Decides (map_of members) =
      Decides-then (members_len members < 2 ^ 32) (EncodableMembers members) _ _
        (map_len-Decides (members_len members)) (members-Decides members)

  items-Decides : (items : Items) → Decides (EncodableItems items) (messagepack_items items)
  items-Decides nil = inl (tt, _, refl)
  items-Decides (cons value items) =
      Decides-then (Encodable value) (EncodableItems items) _ _ (value-Decides value)
        (items-Decides items)

  members-Decides :
      (members : Members) → Decides (EncodableMembers members) (messagepack_members members)
  members-Decides end = inl (tt, _, refl)
  members-Decides (member key value members) =
      Decides-then (length (bytes key) < 2 ^ 32) (Encodable value × EncodableMembers members) _ _
        (string-Decides key)
        (Decides-then (Encodable value) (EncodableMembers members) _ _ (value-Decides value)
          (members-Decides members))

-- A JSON value is encoded exactly when it has no number but whole ones, and every text, array and map
-- of it has a size below 2^32; any other value is answered with the internal error, and with no
-- bytes.
pub messagepack_value-Encodable :
    (value : Value)
    → (Encodable value × (output : List ℕ) × (messagepack_value value ≡ ok output))
      ⊎ (¬ Encodable value × (messagepack_value value ≡ err internal_error))
messagepack_value-Encodable value = value-Decides value
