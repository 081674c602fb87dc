-- ===== src/GraphExports/Protobuf/Wire.antt =====
-- A reader for the fields that src/routes/graph_exports/protobuf.rs writes, and the round trip.
use mathlib.Core.Option.{none-ne-some}
use zed_api_server_rs.Prelude.{
  ℕ, zero, suc, ◌+◌, ◌*◌, ◌/◌, ◌%◌, ◌≡◌, refl, sym, ap, ◌∙◌, true, false, Option, none, some, List,
  [], ◌∷◌, ◌++◌, arith, length, take, drop, take-append, drop-append, append_assoc, append-nil,
  ◌==◌, if◌then◌else◌,
}
use zed_api_server_rs.Text.{Str, bytes}
use zed_api_server_rs.GraphExports.Protobuf.{
  proto_varint, proto_u64, proto_enum, proto_bool, proto_message, proto_string,
}
use zed_api_server_rs.GraphExports.Protobuf.Varint.{read_varint, read_varint-proto_varint}

-- A value on the wire.
pub data WireValue : Type 0 where
  number : ℕ → WireValue
  message : List ℕ → WireValue

-- What the encoder writes for a value under a field's number.
abbrev pub write_field : ℕ × WireValue → List ℕ
write_field (field, number value) = proto_u64 field value
write_field (field, message value) = proto_message field value

abbrev pub write_fields : List (ℕ × WireValue) → List ℕ
write_fields [] = []
write_fields (f ∷ fs) = write_field f ++ write_fields fs

abbrev read_number : ℕ → Option (ℕ × List ℕ) → Option ((ℕ × WireValue) × List ℕ)
read_number field none = none
read_number field (some q) = some ((field, number q.0), q.1)

abbrev read_message : ℕ → Option (ℕ × List ℕ) → Option ((ℕ × WireValue) × List ℕ)
read_message field none = none
read_message field (some q) = some ((field, message (take q.0 q.1)), drop q.0 q.1)

abbrev read_keyed : Option (ℕ × List ℕ) → Option ((ℕ × WireValue) × List ℕ)
read_keyed none = none
read_keyed (some q) =
    if q.0 % 8 == 0
    then read_number (q.0 / 8) (read_varint q.1)
    else if q.0 % 8 == 2
    then read_message (q.0 / 8) (read_varint q.1)
    else none

-- The field at the front of some bytes.
abbrev pub read_field : List ℕ → Option ((ℕ × WireValue) × List ℕ)
read_field bs = read_keyed (read_varint bs)

number_key : (field : ℕ) → ((field * 8 % 8 == 0) ≡ true) × (field * 8 / 8 ≡ field)
number_key field = (ground arith, omega arith)

message_key :
    (field : ℕ)
    → (((field * 8 + 2) % 8 == 0) ≡ false)
      × (((field * 8 + 2) % 8 == 2) ≡ true)
      × ((field * 8 + 2) / 8 ≡ field)
message_key field = (ground arith, ground arith, omega arith)

read_field-write : (f : ℕ × WireValue) (t : List ℕ) → read_field (write_field f ++ t) ≡ some (f, t)
unfolding proto_u64 proto_message
read_field-write (field, number value) t =
    rw
      (
        append_assoc (proto_varint (field * 8)) (proto_varint value) t,
        read_varint-proto_varint (field * 8) (proto_varint value ++ t),
        read_varint-proto_varint value t,
        (number_key field).0,
        (number_key field).1,
      )
      refl
read_field-write (field, message value) t =
    rw
      (
        append_assoc (proto_varint (field * 8 + 2)) (proto_varint (length value) ++ value) t,
        append_assoc (proto_varint (length value)) value t,
        read_varint-proto_varint (field * 8 + 2) (proto_varint (length value) ++ (value ++ t)),
        read_varint-proto_varint (length value) (value ++ t),
        (message_key field).0,
        (message_key field).1,
        (message_key field).2,
        take-append value t,
        drop-append value t,
      )
      refl

abbrev read_rest :
    Option ((ℕ × WireValue) × List ℕ)
    → (List ℕ → Option (List (ℕ × WireValue)))
    → Option (List (ℕ × WireValue))
read_rest none rest_of = none
read_rest (some q) rest_of = elim (rest_of q.1) [ none ↦ none | some fs ↦ some (q.0 ∷ fs) ]

-- All the fields of a message, by as much fuel as there may be fields.
abbrev pub read_fields : ℕ → List ℕ → Option (List (ℕ × WireValue))
read_fields fuel [] = some []
read_fields zero (b ∷ bs) = none
read_fields (suc fuel) (b ∷ bs) = read_rest (read_field (b ∷ bs)) (read_fields fuel)

read_fields_step :
    (fuel : ℕ) (f : ℕ × WireValue) (s t : List ℕ)
    → s ≡ write_field f ++ t
    → read_fields (suc fuel) s ≡ read_rest (some (f, t)) (read_fields fuel)
read_fields_step fuel f [] t e =
    elim (none-ne-some (f, t) (ap read_field e ∙ read_field-write f t)) [ ]
read_fields_step fuel f (b ∷ s) t e =
    ap (λ r. read_rest r (read_fields fuel)) (ap read_field e ∙ read_field-write f t)

-- Fields that the encoder writes one after the other are read back as they were, numbers, strings and
-- nested messages alike, with one unit of fuel for each.
pub read_fields-write_fields :
    (fs : List (ℕ × WireValue)) → read_fields (length fs) (write_fields fs) ≡ some fs
read_fields-write_fields [] = refl
read_fields-write_fields (f ∷ fs) =
    read_fields_step (length fs) f (write_fields (f ∷ fs)) (write_fields fs) refl
    ∙ rw (read_fields-write_fields fs, read_rest) refl

-- The flags, enums and strings of the encoder are such fields, a flag that is not set is none.
pub proto-fields :
    (field value : ℕ) (s : Str)
    → (proto_enum field value ≡ write_fields ((field, number value) ∷ []))
      × (proto_bool field true ≡ write_fields ((field, number 1) ∷ []))
      × (proto_bool field false ≡ write_fields [])
      × (proto_string field s ≡ write_fields ((field, message (bytes s)) ∷ []))
unfolding proto_enum proto_bool proto_string
proto-fields field value s = (
  sym (append-nil (proto_u64 field value)),
  sym (append-nil (proto_u64 field 1)),
  refl,
  sym (append-nil (proto_message field (bytes s))),
)
