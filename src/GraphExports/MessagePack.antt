-- ===== src/GraphExports/MessagePack.antt =====
-- src/routes/graph_exports/messagepack.rs: the MessagePack encoder of a JSON value. Each function
-- answers the bytes that the source appends.
pub mod Encodable
mod Tests
use zed_api_server_rs.Prelude.{
  ℕ, zero, suc, ◌+◌, ◌-◌, ◌/◌, ◌%◌, ◌^◌, Bool, true, false, List, [], ◌∷◌, ◌++◌, if◌then◌else◌, ltb,
  length,
}
use zed_api_server_rs.Text.{Str, bytes}
use zed_api_server_rs.Access.{ApiResult, ok, err, ◌>>=◌, internal_error}

-- `serde_json::Value`: a number is a `u64`, a negative `i64` (`negative n` is -(n + 1)) or neither.
mutual
  pub data Value : Type 0 where
    null : Value
    boolean : Bool → Value
    unsigned negative : ℕ → Value
    fraction : Value
    text : Str → Value
    array : Items → Value
    map_of : Members → Value

  pub data Items : Type 0 where
    nil : Items
    cons : Value → Items → Items

  pub data Members : Type 0 where
    end : Members
    member : Str → Value → Members → Members

-- `to_be_bytes` of so many bytes
abbrev pub to_be_bytes : ℕ → ℕ → List ℕ
to_be_bytes zero n = []
to_be_bytes (suc width) n = to_be_bytes width (n / 0x100) ++ (n % 0x100) ∷ []

abbrev pub messagepack_u64 : ℕ → List ℕ
messagepack_u64 value =
    if ltb value 0x80
    then value ∷ []
    else if ltb value 0x100
    then 0xcc ∷ value ∷ []
    else if ltb value 0x10000
    then 0xcd ∷ to_be_bytes 2 value
    else if ltb value 0x100000000
    then 0xce ∷ to_be_bytes 4 value
    else 0xcf ∷ to_be_bytes 8 value

-- `messagepack_i64` of -(n + 1), in two's complement
abbrev pub messagepack_i64 : ℕ → List ℕ
messagepack_i64 n =
    if ltb n 32
    then (0xff - n) ∷ []
    else if ltb n 0x80
    then 0xd0 ∷ (0xff - n) ∷ []
    else if ltb n 0x8000
    then 0xd1 ∷ to_be_bytes 2 (0xffff - n)
    else if ltb n 0x80000000
    then 0xd2 ∷ to_be_bytes 4 (0xffffffff - n)
    else 0xd3 ∷ to_be_bytes 8 (2 ^ 64 - 1 - n)

-- `u32::try_from` and its four bytes, after the marker of the format.
unfoldable pub long_length : ℕ → ℕ → ApiResult (List ℕ)
unfolding internal_error
long_length marker length_ =
    if ltb length_ 0x100000000 then ok (marker ∷ to_be_bytes 4 length_) else err internal_error

unfoldable pub messagepack_string : Str → ApiResult (List ℕ)
unfolding bytes long_length
messagepack_string value =
    let size = length (bytes value) in
    (if ltb size 32
      then ok ((0xa0 + size) ∷ [])
      else if ltb size 0x100
      then ok (0xd9 ∷ size ∷ [])
      else if ltb size 0x10000
      then ok (0xda ∷ to_be_bytes 2 size)
      else long_length 0xdb size)
    >>= (λ header. ok (header ++ bytes value))

unfoldable pub messagepack_array_len : ℕ → ApiResult (List ℕ)
unfolding long_length
messagepack_array_len size =
    if ltb size 16
    then ok ((0x90 + size) ∷ [])
    else if ltb size 0x10000
    then ok (0xdc ∷ to_be_bytes 2 size)
    else long_length 0xdd size

unfoldable pub messagepack_map_len : ℕ → ApiResult (List ℕ)
unfolding long_length
messagepack_map_len size =
    if ltb size 16
    then ok ((0x80 + size) ∷ [])
    else if ltb size 0x10000
    then ok (0xde ∷ to_be_bytes 2 size)
    else long_length 0xdf size

abbrev pub items_len : Items → ℕ
items_len nil = 0
items_len (cons value items) = suc (items_len items)

abbrev pub members_len : Members → ℕ
members_len end = 0
members_len (member key value members) = suc (members_len members)

-- Two outputs, one after the other; the first error is the answer.
infixr 40 ◌then_◌
abbrev pub ◌then_◌ : ApiResult (List ℕ) → ApiResult (List ℕ) → ApiResult (List ℕ)
a then_ b = a >>= (λ front. b >>= (λ back. ok (front ++ back)))

unfoldable mutual
  unfolding messagepack_string messagepack_array_len messagepack_map_len internal_error

  pub messagepack_value : Value → ApiResult (List ℕ)
  messagepack_value null = ok (0xc0 ∷ [])
  messagepack_value (boolean false) = ok (0xc2 ∷ [])
  messagepack_value (boolean true) = ok (0xc3 ∷ [])
  messagepack_value (unsigned n) = ok (messagepack_u64 n)
  messagepack_value (negative n) = ok (messagepack_i64 n)
  messagepack_value fraction = err internal_error
  messagepack_value (text s) = messagepack_string s
  messagepack_value (array items) =
      messagepack_array_len (items_len items) then_ messagepack_items items
  messagepack_value (map_of members) =
      messagepack_map_len (members_len members) then_ messagepack_members members

  pub messagepack_items : Items → ApiResult (List ℕ)
  messagepack_items nil = ok []
  messagepack_items (cons value items) = messagepack_value value then_ messagepack_items items

  pub messagepack_members : Members → ApiResult (List ℕ)
  messagepack_members end = ok []
  messagepack_members (member key value members) =
      messagepack_string key then_ messagepack_value value then_ messagepack_members members
