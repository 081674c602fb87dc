-- ===== src/GraphExports/Protobuf.antt =====
-- src/routes/graph_exports/protobuf.rs: the wire primitives of the encoder. Each function answers the
-- bytes that the source appends to its output.
pub mod Varint
pub mod Wire
mod Tests
use zed_api_server_rs.Prelude.{
  ℕ, zero, suc, ◌+◌, ◌*◌, ◌/◌, ◌%◌, Bool, true, false, List, [], ◌∷◌, ◌++◌, ltb, length,
}
use zed_api_server_rs.Text.{Str, bytes}

-- The loop of `proto_varint`: seven bits at a time, from the low end; each turn needs one unit of fuel.
unfoldable pub varint : ℕ → ℕ → List ℕ
varint zero value = []
varint (suc fuel) value = elim (ltb value 0x80) [
  | true ↦ value ∷ []
  | false ↦ (value % 0x80 + 0x80) ∷ varint fuel (value / 0x80)
]

unfoldable pub proto_varint : ℕ → List ℕ
unfolding varint
proto_varint value = varint (suc value) value

-- The wire type 0: the key and the value.
unfoldable pub proto_u64 : ℕ → ℕ → List ℕ
unfolding proto_varint
proto_u64 field value = proto_varint (field * 8) ++ proto_varint value

unfoldable pub proto_enum : ℕ → ℕ → List ℕ
unfolding proto_u64
proto_enum field value = proto_u64 field value

-- The default of a flag is left out.
unfoldable pub proto_bool : ℕ → Bool → List ℕ
unfolding proto_u64
proto_bool field true = proto_u64 field 1
proto_bool field false = []

-- The wire type 2: the key, the length and the bytes.
unfoldable pub proto_message : ℕ → List ℕ → List ℕ
unfolding proto_varint
proto_message field value = proto_varint (field * 8 + 2) ++ (proto_varint (length value) ++ value)

unfoldable pub proto_string : ℕ → Str → List ℕ
unfolding proto_message bytes
proto_string field value = proto_message field (bytes value)
