-- ===== src/GraphExports/Csv/Tests.antt =====
-- Tests of the CSV of src/routes/graph_exports/csv.rs.
use zed_api_server_rs.Prelude.{[], ◌∷◌, ◌++◌, some, map, All, ◌≡◌, refl}
use zed_api_server_rs.Text.{Str}
use zed_api_server_rs.Access.{ok, err}
use zed_api_server_rs.GraphExports.Csv.{csv_record, csv_field, representation_too_large, shown}
use zed_api_server_rs.GraphExports.Csv.Cells.{IsText, csv_record-read}
use zed_api_server_rs.GraphExports.Csv.Reader.{read_record}

abbrev formula_field : Str
formula_field = b'=' ∷ b'1' ∷ []

abbrev comma_field : Str
comma_field = b'a' ∷ b',' ∷ b'b' ∷ []

abbrev formula_line : Str
formula_line =
    b'"' ∷ b'\'' ∷ b'=' ∷ b'1' ∷ b'"' ∷ b',' ∷ b'"' ∷ b'a' ∷ b',' ∷ b'b' ∷ b'"' ∷ b'\r' ∷ b'\n' ∷ []

formula_record_test : csv_record 100 [] (formula_field ∷ comma_field ∷ []) ≡ ok formula_line
unfolding csv_record
formula_record_test = refl

-- The escaped form of two bytes takes five, one more than the limit here.
field_too_large_test : csv_field 4 [] formula_field ≡ err representation_too_large
unfolding csv_field
field_too_large_test = refl

csv_record-read_example :
    (line : Str) × (formula_line ≡ [] ++ line)
    × (read_record 2 line ≡ some (map shown (formula_field ∷ comma_field ∷ []), b'\r' ∷ b'\n' ∷ []))
    × All IsText (map shown (formula_field ∷ comma_field ∷ []))
csv_record-read_example =
    csv_record-read 100 [] formula_field (comma_field ∷ []) formula_line formula_record_test
