-- ===== src/GraphExports/Protobuf/Tests.antt =====
-- Wire bytes of concrete fields.
use zed_api_server_rs.Prelude.{◌≡◌, refl, true, false, some, [], ◌∷◌}
use zed_api_server_rs.Text.{str, bytes}
use zed_api_server_rs.GraphExports.Protobuf.{proto_varint, proto_enum, proto_bool, proto_string}
use zed_api_server_rs.GraphExports.Protobuf.Wire.{
  number, message, write_fields, read_fields, read_fields-write_fields, proto-fields,
}

test-varint : proto_varint 300 ≡ 0xac ∷ 0x02 ∷ []
unfolding proto_varint
test-varint = refl

test-string : proto_string 1 (str "ab") ≡ 0x0a ∷ 0x02 ∷ b'a' ∷ b'b' ∷ []
unfolding proto_string str
test-string = refl

read_fields-write_fields_example :
    read_fields 2 (write_fields ((1, number 300) ∷ (2, message (b'a' ∷ [])) ∷ []))
    ≡ some ((1, number 300) ∷ (2, message (b'a' ∷ [])) ∷ [])
read_fields-write_fields_example =
    read_fields-write_fields ((1, number 300) ∷ (2, message (b'a' ∷ [])) ∷ [])

proto-fields_example :
    (proto_enum 3 2 ≡ write_fields ((3, number 2) ∷ []))
    × (proto_bool 3 true ≡ write_fields ((3, number 1) ∷ []))
    × (proto_bool 3 false ≡ write_fields [])
    × (proto_string 3 (str "ab") ≡ write_fields ((3, message (bytes (str "ab"))) ∷ []))
proto-fields_example = proto-fields 3 2 (str "ab")
