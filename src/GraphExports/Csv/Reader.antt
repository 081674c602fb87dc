-- ===== src/GraphExports/Csv/Reader.antt =====
-- src/routes/graph_exports/csv.rs: a reader of CSV, which gets back what the cells say.
use zed_api_server_rs.Prelude.{
  ℕ, zero, suc, Bool, true, false, ◌||◌, Option, none, some, List, [], ◌∷◌, ◌++◌, if◌then◌else◌,
  ◌==◌, ==_iff, any, length, map, append_assoc, ◌≡◌, refl, ap, sym, ◌∙◌, inl, inr, Bool-cases,
  ||_false, arith,
}
use zed_api_server_rs.Text.{Str}
use zed_api_server_rs.GraphExports.Csv.{
  is_special, first_is, spreadsheet_unsafe, needs_quotes, escaped, shown, cell,
}

abbrev pub prepend : ℕ → Option (Str × Str) → Option (Str × Str)
prepend c none = none
prepend c (some (s, rest)) = some (c ∷ s, rest)

-- The inside of a quoted cell, and what is behind its closing quote; `after_quote` says that a quote
-- has just been read.
abbrev pub read_quoted : Bool → Str → Option (Str × Str)
read_quoted false [] = none
read_quoted true [] = some ([], [])
read_quoted false (c ∷ s) =
    let closing = read_quoted true s in
    let inner = prepend c (read_quoted false s) in if c == b'"' then closing else inner
read_quoted true (c ∷ s) =
    let inner = prepend b'"' (read_quoted false s) in if c == b'"' then inner else some ([], c ∷ s)

-- A cell without quotes ends at the first special character.
abbrev pub read_plain : Str → Str × Str
read_plain [] = ([], [])
read_plain (c ∷ s) =
    let (t, rest) = read_plain s in if is_special c then ([], c ∷ s) else (c ∷ t, rest)

abbrev pub read_cell : Str → Option (Str × Str)
read_cell [] = some ([], [])
read_cell (c ∷ s) = if c == b'"' then read_quoted false s else some (read_plain (c ∷ s))

-- The cells of a record up to its line break; a record has at most so many.
abbrev pub read_record : ℕ → Str → Option (List Str × Str)
read_record zero s = none
read_record (suc n) s = elim (read_cell s) [
  | none ↦ none
  | some (value, []) ↦ none
  | some (value, c ∷ rest) ↦
      let more = read_record n rest in
      if c == b','
      then elim more [ none ↦ none | some (values, behind) ↦ some (value ∷ values, behind) ]
      else some (value ∷ [], c ∷ rest)
]

-- A text that a record goes on with: a comma or a line break.
abbrev pub Stops : Str → Type 0
Stops rest = (first_is is_special rest ≡ true) × (first_is (λ c. c == b'"') rest ≡ false)

read_quoted-escaped :
    (value rest : Str)
    → first_is (λ c. c == b'"') rest ≡ false
    → read_quoted false (escaped value ++ b'"' ∷ rest) ≡ some (value, rest)
read_quoted-escaped [] [] h = refl
read_quoted-escaped [] (c ∷ rest) h =
    ap (λ b. if b then prepend b'"' (read_quoted false rest) else some ([], c ∷ rest)) h
read_quoted-escaped (c ∷ value) rest h = elim (Bool-cases (c == b'"')) [
  | inl e ↦ rw e (
      ap (prepend b'"') (read_quoted-escaped value rest h)
      ∙ ap (λ d. some (d ∷ value, rest)) (sym ((==_iff c b'"').0 e)))
  | inr e ↦ rw e (rw e (ap (prepend c) (read_quoted-escaped value rest h)))
]

read_plain-append :
    (value rest : Str)
    → any is_special value ≡ false
    → first_is is_special rest ≡ true
    → read_plain (value ++ rest) ≡ (value, rest)
read_plain-append [] [] h k = refl
read_plain-append [] (c ∷ rest) h k =
    ap (λ b. if b then ([], c ∷ rest) else (c ∷ (read_plain rest).0, (read_plain rest).1)) k
read_plain-append (c ∷ value) rest h k =
    let (here, later) = ||_false (is_special c) (any is_special value) h in
    ap
      (λ b.
        if b
        then ([], c ∷ (value ++ rest))
        else (c ∷ (read_plain (value ++ rest)).0, (read_plain (value ++ rest)).1))
      here
    ∙ ap (λ (r : Str × Str). (c ∷ r.0, r.1)) (read_plain-append value rest later k)

cell_lem :
    (value : Str)
    → cell value ≡ (
        if needs_quotes value
        then (b'"' ∷ (if spreadsheet_unsafe value then b'\'' ∷ [] else []))
          ++ escaped value
          ++ b'"' ∷ []
        else value)
unfolding cell
cell_lem value = refl

pub shown_lem :
    (value : Str) → shown value ≡ (if spreadsheet_unsafe value then b'\'' ∷ value else value)
unfolding shown
shown_lem value = refl

needs_quotes_lem :
    (value : Str) → needs_quotes value ≡ (spreadsheet_unsafe value || any is_special value)
unfolding needs_quotes
needs_quotes_lem value = refl

read_stop :
    (rest : Str)
    → first_is is_special rest ≡ true
    → first_is (λ c. c == b'"') rest ≡ false
    → read_cell rest ≡ some ([], rest)
read_stop [] h k = refl
read_stop (c ∷ rest) h k =
    ap (λ b. if b then read_quoted false rest else some (read_plain (c ∷ rest))) k
    ∙ ap some (read_plain-append [] (c ∷ rest) refl h)

read_unquoted :
    (value rest : Str)
    → any is_special value ≡ false
    → first_is is_special rest ≡ true
    → first_is (λ c. c == b'"') rest ≡ false
    → read_cell (value ++ rest) ≡ some (value, rest)
read_unquoted [] rest h k l = read_stop rest k l
read_unquoted (c ∷ value) rest h k l =
    ap
      (λ b.
        if b then read_quoted false (value ++ rest) else some (read_plain (c ∷ (value ++ rest))))
      (not_quote c (||_false (is_special c) (any is_special value) h).0)
    ∙ ap some (read_plain-append (c ∷ value) rest h k)
  where
    not_quote : (c : ℕ) → is_special c ≡ false → (c == b'"') ≡ false
    not_quote c h = ground arith

-- What the reader gets from a cell is what the cell shows.
read_cell-cell :
    (value rest : Str)
    → first_is is_special rest ≡ true
    → first_is (λ c. c == b'"') rest ≡ false
    → read_cell (cell value ++ rest) ≡ some (shown value, rest)
read_cell-cell value rest h k = elim (Bool-cases (spreadsheet_unsafe value)) [
  | inl e ↦
      rw (cell_lem value, shown_lem value, needs_quotes_lem value, e)
        (ap (λ t. prepend b'\'' (read_quoted false t))
            (append_assoc (escaped value) (b'"' ∷ []) rest)
          ∙ ap (prepend b'\'') (read_quoted-escaped value rest k))
  | inr e ↦ elim (Bool-cases (any is_special value)) [
    | inl f ↦
        rw (cell_lem value, shown_lem value, needs_quotes_lem value, e, f)
          (ap (read_quoted false) (append_assoc (escaped value) (b'"' ∷ []) rest)
            ∙ read_quoted-escaped value rest k)
    | inr f ↦
        rw (cell_lem value, shown_lem value, needs_quotes_lem value, e, f)
          (read_unquoted value rest f h k)
  ]
]

-- The rest of a record after its first cell.
abbrev pub tail_of : List Str → Str → Str
tail_of [] behind = b'\r' ∷ b'\n' ∷ behind
tail_of (field ∷ fields) behind = b',' ∷ (cell field ++ tail_of fields behind)

tail-special :
    (fields : List Str) (behind : Str)
    → (first_is is_special (tail_of fields behind) ≡ true)
      × (first_is (λ c. c == b'"') (tail_of fields behind) ≡ false)
tail-special [] behind = (refl, refl)
tail-special (field ∷ fields) behind = (refl, refl)

pub read_record-cells :
    (field : Str) (fields : List Str) (behind : Str)
    → read_record (suc (length fields)) (cell field ++ tail_of fields behind)
      ≡ some (map shown (field ∷ fields), b'\r' ∷ b'\n' ∷ behind)
read_record-cells field [] behind =
    rw (read_cell-cell field (b'\r' ∷ b'\n' ∷ behind) refl refl, read_record)
read_record-cells field (next ∷ fields) behind =
    rw (read_cell-cell field (tail_of (next ∷ fields) behind) refl refl, read_record)
      (ap
        (λ (m : Option (List Str × Str)). elim m [
          | none ↦ none
          | some (values, end) ↦ some (shown field ∷ values, end)
        ])
        (read_record-cells next fields behind))
