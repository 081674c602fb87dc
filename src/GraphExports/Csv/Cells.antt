-- ===== src/GraphExports/Csv/Cells.antt =====
-- The records of src/routes/graph_exports/csv.rs, read back, and what spreadsheets make of them.
use zed_api_server_rs.Prelude.{
  ℕ, suc, true, false, ◌||◌, some, List, [], ◌∷◌, ◌++◌, length, map, append_assoc, append-nil, All,
  ◌≡◌, ◌≢◌, ◌⊎◌, Bool, refl, ap, sym, ◌∙◌, inl, inr, Bool-cases, ||_false, arith,
}
use zed_api_server_rs.Text.{Str, bytes, drop_while, is_whitespace}
use zed_api_server_rs.Access.{ok, ◌>>=◌}
use zed_api_server_rs.Yank.Lookups.{bind_ok, ok-inj}
use zed_api_server_rs.GraphExports.Csv.{
  first_is, is_formula_start, is_line_start, spreadsheet_unsafe, shown, cell, csv_field, csv_fields,
  csv_record, push_bounded, ensure_room, len_or_too_large, encoded_len,
}
use zed_api_server_rs.GraphExports.Csv.Reader.{read_record, shown_lem, tail_of, read_record-cells}

push_bounded_lem :
    (max_encoded_bytes : ℕ) (output value : Str)
    → push_bounded max_encoded_bytes output value ≡ (
        ensure_room max_encoded_bytes (length (bytes output)) (length (bytes value))
        >>= (λ room. ok (output ++ value)))
unfolding push_bounded
push_bounded_lem max_encoded_bytes output value = refl

csv_field_lem :
    (max_encoded_bytes : ℕ) (output value : Str)
    → csv_field max_encoded_bytes output value ≡ (
        len_or_too_large max_encoded_bytes (encoded_len value) >>= (λ len.
          ensure_room max_encoded_bytes (length (bytes output)) len
          >>= (λ room. ok (output ++ cell value))))
unfolding csv_field
csv_field_lem max_encoded_bytes output value = refl

csv_fields_cons :
    (max_encoded_bytes : ℕ) (output field : Str) (fields : List Str)
    → csv_fields max_encoded_bytes output (field ∷ fields) ≡ (
        push_bounded max_encoded_bytes output (b',' ∷ []) >>= (λ more.
          csv_field max_encoded_bytes more field
          >>= (λ rest. csv_fields max_encoded_bytes rest fields)))
unfolding csv_fields
csv_fields_cons max_encoded_bytes output field fields = refl

csv_fields_nil :
    (max_encoded_bytes : ℕ) (output : Str) → csv_fields max_encoded_bytes output [] ≡ ok output
unfolding csv_fields
csv_fields_nil max_encoded_bytes output = refl

csv_record_lem :
    (max_encoded_bytes : ℕ) (output field : Str) (fields : List Str)
    → csv_record max_encoded_bytes output (field ∷ fields) ≡ (
        (csv_field max_encoded_bytes output field
          >>= (λ rest. csv_fields max_encoded_bytes rest fields))
        >>= (λ rest. push_bounded max_encoded_bytes rest (b'\r' ∷ b'\n' ∷ [])))
unfolding csv_record
csv_record_lem max_encoded_bytes output field fields = refl

drop_while_stop :
    (c : ℕ) (s : Str) → is_whitespace c ≡ false → drop_while is_whitespace (c ∷ s) ≡ c ∷ s
unfolding drop_while
drop_while_stop c s h = rw h

unsafe_lem :
    (value : Str)
    → spreadsheet_unsafe value
      ≡ (first_is is_line_start value || first_is is_formula_start (drop_while is_whitespace value))
unfolding spreadsheet_unsafe
unsafe_lem value = refl

-- The characters that begin a formula, and those that end a cell's line or move to the next cell.
abbrev pub IsHarmless : ℕ → Type 0
IsHarmless c = (c ≢ b'=') × (c ≢ b'+') × (c ≢ b'-') × (c ≢ b'@')

abbrev pub BeginsLine : Str → Type 0
BeginsLine [] = ⊥
BeginsLine (c ∷ s) = (c ≡ b'\t') ⊎ (c ≡ b'\r') ⊎ (c ≡ b'\n')

-- A cell that a spreadsheet shows as text: it does not begin with a tab or a line break, and its
-- first character that is no blank does not begin a formula.
pub record IsText (value : Str) : Type 0 where
  pub on_line : BeginsLine value → ⊥
  pub no_formula :
      (blank : Str) (c : ℕ) (rest : Str)
      → All (λ b. is_whitespace b ≡ true) blank
      → is_whitespace c ≡ false
      → value ≡ blank ++ c ∷ rest
      → IsHarmless c

drop_while-blank :
    (blank : Str) (c : ℕ) (rest : Str)
    → All (λ b. is_whitespace b ≡ true) blank
    → is_whitespace c ≡ false
    → drop_while is_whitespace (blank ++ c ∷ rest) ≡ c ∷ rest
unfolding drop_while
drop_while-blank [] c rest h k = drop_while_stop c rest k
drop_while-blank (b ∷ blank) c rest (p, h) k = rw p (drop_while-blank blank c rest h k)

harmless : (c : ℕ) → is_formula_start c ≡ false → IsHarmless c
harmless c h = ground arith

on_line_lem : (value : Str) → first_is is_line_start value ≡ false → BeginsLine value → ⊥
on_line_lem [] h k = k
on_line_lem (c ∷ s) h k = ground arith

safe-IsText : (value : Str) → spreadsheet_unsafe value ≡ false → IsText value
safe-IsText value h =
    let parts = ||_false (first_is is_line_start value) _ (sym (unsafe_lem value) ∙ h) in
    record {
      on_line = on_line_lem value parts.0;
      no_formula = λ blank c rest blanks solid e. harmless c (
          ap (first_is is_formula_start)
            (sym (ap (drop_while is_whitespace) e ∙ drop_while-blank blank c rest blanks solid))
          ∙ parts.1);
    }

apostrophe_solid : is_whitespace b'\'' ≡ false
unfolding is_whitespace
apostrophe_solid = refl

quoted-IsText : (value : Str) → IsText (b'\'' ∷ value)
quoted-IsText value = record {
  on_line = λ k. ground arith;
  no_formula = λ blank c rest blanks solid e. first blank c rest blanks e;
}
  where
    opposite : (b : Bool) → b ≡ true → b ≡ false → ⊥
    opposite b h k = cc

    first :
        (blank : Str) (c : ℕ) (rest : Str)
        → All (λ b. is_whitespace b ≡ true) blank
        → b'\'' ∷ value ≡ blank ++ c ∷ rest
        → IsHarmless c
    first [] c rest blanks e = let same : b'\'' ≡ c = cc in ground arith
    first (b ∷ blank) c rest (p, blanks) e =
        let same : b'\'' ≡ b = cc in
        absurd (opposite _ (ap is_whitespace same ∙ p) apostrophe_solid)

shown-IsText : (value : Str) → IsText (shown value)
shown-IsText value = elim (Bool-cases (spreadsheet_unsafe value)) [
  | inl e ↦ rw (shown_lem value, e) (quoted-IsText value)
  | inr e ↦ rw (shown_lem value, e) (safe-IsText value e)
]

shown-All : (fields : List Str) → All IsText (map shown fields)
shown-All [] = tt
shown-All (field ∷ fields) = (shown-IsText field, shown-All fields)

module _ (max_encoded_bytes : ℕ) where
  push_bounded_ok :
      (output value r : Str)
      → push_bounded max_encoded_bytes output value ≡ ok r
      → r ≡ output ++ value
  push_bounded_ok output value r h =
      let (room, e, h1) =
        bind_ok (ensure_room max_encoded_bytes (length (bytes output)) (length (bytes value)))
          (λ room. ok (output ++ value)) r
          (sym (push_bounded_lem max_encoded_bytes output value) ∙ h) in
      sym (ok-inj h1)

  csv_field_ok :
      (output value r : Str)
      → csv_field max_encoded_bytes output value ≡ ok r
      → r ≡ output ++ cell value
  csv_field_ok output value r h =
      let (len, e, h1) =
        bind_ok (len_or_too_large max_encoded_bytes (encoded_len value))
          (λ len.
            ensure_room max_encoded_bytes (length (bytes output)) len
            >>= (λ room. ok (output ++ cell value)))
          r (sym (csv_field_lem max_encoded_bytes output value) ∙ h) in
      let (room, e', h2) =
        bind_ok (ensure_room max_encoded_bytes (length (bytes output)) len)
          (λ room. ok (output ++ cell value)) r h1 in
      sym (ok-inj h2)

  -- The cells after the first one, without the line break.
  abbrev cells_of : List Str → Str
  cells_of [] = []
  cells_of (field ∷ fields) = b',' ∷ (cell field ++ cells_of fields)

  csv_fields_ok :
      (output : Str) (fields : List Str) (r : Str)
      → csv_fields max_encoded_bytes output fields ≡ ok r
      → r ≡ output ++ cells_of fields
  csv_fields_ok output [] r h =
      sym (ok-inj (sym (csv_fields_nil max_encoded_bytes output) ∙ h)) ∙ sym (append-nil output)
  csv_fields_ok output (field ∷ fields) r h =
      let (more, e1, h1) =
        bind_ok _ _ r (sym (csv_fields_cons max_encoded_bytes output field fields) ∙ h) in
      let (rest, e2, h2) =
        bind_ok (csv_field max_encoded_bytes more field)
          (λ rest. csv_fields max_encoded_bytes rest fields) r h1 in
      csv_fields_ok rest fields r h2
      ∙ ap (λ t. t ++ cells_of fields)
          (csv_field_ok more field rest e2
            ∙ ap (λ t. t ++ cell field) (push_bounded_ok output (b',' ∷ []) more e1))
      ∙ append_assoc (output ++ b',' ∷ []) (cell field) (cells_of fields)
      ∙ append_assoc output (b',' ∷ []) (cell field ++ cells_of fields)

  cells-tail :
      (fields : List Str) (behind : Str)
      → cells_of fields ++ b'\r' ∷ b'\n' ∷ behind ≡ tail_of fields behind
  cells-tail [] behind = refl
  cells-tail (field ∷ fields) behind =
      ap (λ t. b',' ∷ t)
        (append_assoc (cell field) (cells_of fields) (b'\r' ∷ b'\n' ∷ behind)
          ∙ ap (λ t. cell field ++ t) (cells-tail fields behind))

  -- A record that is written can be read: the output goes on with a line from which a CSV reader gets
  -- as many cells as there were fields. Each cell says its field, behind an apostrophe when the
  -- field begins like a formula or with a line break or tab, so that no cell begins with a tab or a
  -- line break, or with `=`, `+`, `-` or `@` behind any blanks.
  pub csv_record-read :
      (output field : Str) (fields : List Str) (r : Str)
      → csv_record max_encoded_bytes output (field ∷ fields) ≡ ok r
      → (line : Str) × (r ≡ output ++ line)
        × (read_record (suc (length fields)) line
            ≡ some (map shown (field ∷ fields), b'\r' ∷ b'\n' ∷ []))
        × All IsText (map shown (field ∷ fields))
  csv_record-read output field fields r h =
      let (all_fields, e1, h1) =
        bind_ok _ _ r (sym (csv_record_lem max_encoded_bytes output field fields) ∙ h) in
      let (one, e2, h2) =
        bind_ok (csv_field max_encoded_bytes output field)
          (λ rest. csv_fields max_encoded_bytes rest fields) all_fields e1 in
      (
        cell field ++ tail_of fields [],
        push_bounded_ok all_fields (b'\r' ∷ b'\n' ∷ []) r h1
            ∙ ap (λ t. t ++ b'\r' ∷ b'\n' ∷ [])
                (csv_fields_ok one fields all_fields h2
                  ∙ ap (λ t. t ++ cells_of fields) (csv_field_ok output field one e2)
                  ∙ append_assoc output (cell field) (cells_of fields))
            ∙ append_assoc output (cell field ++ cells_of fields) (b'\r' ∷ b'\n' ∷ [])
            ∙ ap (λ t. output ++ t)
                (append_assoc (cell field) (cells_of fields) (b'\r' ∷ b'\n' ∷ [])
                  ∙ ap (λ t. cell field ++ t) (cells-tail fields [])),
        read_record-cells field fields [],
        shown-All (field ∷ fields),
      )
