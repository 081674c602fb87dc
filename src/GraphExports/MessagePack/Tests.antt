-- ===== src/GraphExports/MessagePack/Tests.antt =====
-- src/routes/graph_exports/messagepack.rs: encodings that the format's documents give.
use zed_api_server_rs.Prelude.{ℕ, List, [], ◌∷◌, ◌≡◌, refl, ◌⊎◌, true}
use zed_api_server_rs.Text.{str}
use zed_api_server_rs.Access.{ok, err, internal_error}
use zed_api_server_rs.GraphExports.MessagePack.{
  Value, array, map_of, cons, nil, member, end, unsigned, negative, fraction, boolean,
  messagepack_value,
}
use zed_api_server_rs.GraphExports.MessagePack.Encodable.{Encodable, messagepack_value-Encodable}

abbrev sample : Value
sample = map_of (
    member (str "n") (array (cons (unsigned 300) (cons (negative 0) nil)))
      (member (str "b") (boolean true) end))

test-sample :
    messagepack_value sample
    ≡ ok (0x82 ∷ 0xa1 ∷ 110 ∷ 0x92 ∷ 0xcd ∷ 0x01 ∷ 0x2c ∷ 0xff ∷ 0xa1 ∷ 98 ∷ 0xc3 ∷ [])
unfolding messagepack_value str
test-sample = refl

test-negative : messagepack_value (negative 199) ≡ ok (0xd1 ∷ 0xff ∷ 0x38 ∷ [])
unfolding messagepack_value
test-negative = refl

test-fraction :
    messagepack_value (array (cons (unsigned 1) (cons fraction nil))) ≡ err internal_error
unfolding messagepack_value
test-fraction = refl

messagepack_value-Encodable_example :
    (Encodable sample × (output : List ℕ) × (messagepack_value sample ≡ ok output))
    ⊎ (¬ Encodable sample × (messagepack_value sample ≡ err internal_error))
messagepack_value-Encodable_example = messagepack_value-Encodable sample
