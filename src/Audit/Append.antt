-- ===== src/Audit/Append.antt =====
-- Appending in src/audit.rs: `append_chained` and the loop of `record` among interfering writers.
use zed_api_server_rs.Prelude.{
  ℕ, suc, ◌+◌, ◌≡◌, ◌≢◌, refl, ◌∙◌, ap, inl, inr, true, false, ◌&&◌, Option, none, some, List, [],
  ◌∷◌, ◌++◌, arith, Bool-cases, length, length-append, succ, eq_ℤ, if◌then◌else◌, any, ◌==◌, ==_iff,
  ==_refl, subst, append_assoc, append-nil,
}
use zed_api_server_rs.Text.{Str}
use zed_api_server_rs.Audit.{
  AuditRow, ChainLibrary, Entry, expected_hash, entry_digest, is_chained, chained, of_org, seq_of,
  hash_of, or_empty, non_empty, tip_from, tip, position_taken, next_row, append_chained,
  verify_chain,
}
use zed_api_server_rs.Audit.Links.{Linked-verify_chain, chained-append, intact_report}
use zed_api_server_rs.Audit.Log.{
  last_of, chained_row, Grows, Grows-snoc, Grows-Linked, tip_from-last, free_beyond, Sealed,
}

pub of_org-append :
    (org : ℕ) (xs ys : List AuditRow) → of_org org (xs ++ ys) ≡ of_org org xs ++ of_org org ys
of_org-append org [] ys = refl
of_org-append org (x ∷ xs) ys = elim (Bool-cases (x.org_id == org)) [
  | inl h ↦ rw (h, of_org-append org xs ys)
  | inr h ↦ rw (h, of_org-append org xs ys)
]

taken_here :
    (row : AuditRow) (rows : List AuditRow)
    → any (λ r. r.org_id == row.org_id && eq_ℤ r.seq row.seq) rows
      ≡ any (λ r. eq_ℤ r.seq row.seq) (of_org row.org_id rows)
taken_here row [] = refl
taken_here row (x ∷ rows) = elim (Bool-cases (x.org_id == row.org_id)) [
  | inl h ↦ rw (h, taken_here row rows)
  | inr h ↦ rw (h, taken_here row rows)
]

-- A position is taken exactly among the rows of the organisation.
pub position_taken_lem :
    (row : AuditRow) (table : List AuditRow)
    → position_taken row table ≡ any (λ r. eq_ℤ r.seq row.seq) (of_org row.org_id table)
unfolding position_taken
position_taken_lem row table = taken_here row table

or_empty-non_empty : (s : Str) → or_empty (non_empty s) ≡ s
or_empty-non_empty [] = refl
or_empty-non_empty (c ∷ s) = refl

-- What another crate's SHA-256 returns is never the empty text.
abbrev pub NeverEmpty : ChainLibrary → Type 0
NeverEmpty lib = (b : List ℕ) → lib.sha256_hex b ≢ []

module _ (lib : ChainLibrary) where
  -- Each organisation's rows are a log from its first position on.
  abbrev pub IsLog : List AuditRow → Type 0
  IsLog table = (org : ℕ) → Grows lib none (of_org org table)

  pub tip_lem :
      (org : ℕ) (table : List AuditRow)
      → IsLog table
      → tip org table ≡ last_of none (of_org org table)
  unfolding tip
  tip_lem org table log = first (of_org org table) (log org)
    where
      first : (rows : List AuditRow) → Grows lib none rows → tip_from none rows ≡ last_of none rows
      first [] h = refl
      first (row ∷ rows) (s, l, h) = tip_from-last lib row rows 1 s h

  pub next_row-seq :
      (last : Option AuditRow) (entry : Entry) → (next_row lib last entry).seq ≡ succ (seq_of last)
  unfolding next_row
  next_row-seq last entry = refl

  pub next_row-org :
      (last : Option AuditRow) (entry : Entry) → (next_row lib last entry).org_id ≡ entry.org_id
  unfolding next_row
  next_row-org last entry = refl

  next_row-Sealed :
      NeverEmpty lib
      → (last : Option AuditRow) (entry : Entry) → Sealed lib last (next_row lib last entry)
  unfolding next_row expected_hash entry_digest
  next_row-Sealed full last entry = inr (full _, rw (or_empty-non_empty (hash_of last)))

  -- The row that the tip leads to extends the log.
  pub next_row-IsLog :
      NeverEmpty lib
      → (table : List AuditRow) (entry : Entry) (more : List AuditRow) → IsLog (table ++ more)
      → of_org entry.org_id more ≡ []
      → IsLog
          ((table ++ more) ++ next_row lib (last_of none (of_org entry.org_id table)) entry ∷ [])
  unfolding next_row
  next_row-IsLog full table entry more log quiet org =
      let row = next_row lib (last_of none (of_org entry.org_id table)) entry in
      let same = next_row-org (last_of none (of_org entry.org_id table)) entry in
      let own : Grows lib none
          (of_org entry.org_id (table ++ more) ++ of_org entry.org_id (row ∷ [])) =
        rw
          (
            same,
            ==_refl entry.org_id,
            of_org-append entry.org_id table more,
            quiet,
            append-nil (of_org entry.org_id table),
          )
          (Grows-snoc lib none (of_org entry.org_id table) row
            (rw
              (of_org-append entry.org_id table more, quiet, append-nil (of_org entry.org_id table))
              at (log entry.org_id))
            (next_row-seq (last_of none (of_org entry.org_id table)) entry)
            (next_row-Sealed full (last_of none (of_org entry.org_id table)) entry)) in
      rw (of_org-append org (table ++ more) (row ∷ [])) (elim (Bool-cases (entry.org_id == org)) [
        | inr h ↦ rw (same, h, append-nil (of_org org (table ++ more))) (log org)
        | inl h ↦
            subst (λ o. Grows lib none (of_org o (table ++ more) ++ of_org o (row ∷ [])))
              ((==_iff entry.org_id org).0 h) own
      ])

  -- The position behind the tip is free.
  pub next_row-free :
      (table : List AuditRow) (entry : Entry)
      → IsLog table
      → position_taken (next_row lib (last_of none (of_org entry.org_id table)) entry) table ≡ false
  next_row-free table entry log =
      let last = last_of none (of_org entry.org_id table) in
      let (m, at, le, free) =
        free_beyond lib none (of_org entry.org_id table) 0 refl (log entry.org_id) in
      rw
        (
          position_taken_lem (next_row lib last entry) table,
          next_row-org last entry,
          next_row-seq last entry,
          at,
        )
        (free (suc m) (omega arith))

  append_chained_lem :
      (table : List AuditRow) (entry : Entry)
      → append_chained lib table entry ≡ (
          if position_taken (next_row lib (tip entry.org_id table) entry) table
          then none
          else some (table ++ next_row lib (tip entry.org_id table) entry ∷ []))
  unfolding append_chained
  append_chained_lem table entry = refl

  -- On a log an append never meets the unique index: it adds one row behind the tip, and the table
  -- stays a log.
  pub append_chained-IsLog :
      NeverEmpty lib
      → (table : List AuditRow) (entry : Entry) → IsLog table
      → (append_chained lib table entry
          ≡ some (table ++ next_row lib (last_of none (of_org entry.org_id table)) entry ∷ []))
        × IsLog (table ++ next_row lib (last_of none (of_org entry.org_id table)) entry ∷ [])
  append_chained-IsLog full table entry log = (
    rw (
      append_chained_lem table entry,
      tip_lem entry.org_id table log,
      next_row-free table entry log,
    ),
    rw (append-nil table) at (next_row-IsLog full table entry [] (rw (append-nil table) log) refl),
  )

  -- Any number of appends, one after the other.
  abbrev pub append_all : List Entry → List AuditRow → Option (List AuditRow)
  append_all [] table = some table
  append_all (entry ∷ entries) table = elim (append_chained lib table entry) [
    | none ↦ none
    | some table' ↦ append_all entries table'
  ]

  -- How many of the entries are an organisation's.
  abbrev pub count_of : ℕ → List Entry → ℕ
  count_of org [] = 0
  count_of org (entry ∷ entries) =
      if entry.org_id == org then suc (count_of org entries) else count_of org entries

  -- A log verifies as intact, with all its chained rows.
  pub IsLog-verify_chain :
      (table : List AuditRow) (org : ℕ)
      → IsLog table
      → verify_chain lib (of_org org table) ≡ intact_report lib (chained (of_org org table))
  IsLog-verify_chain table org log =
      Linked-verify_chain lib (of_org org table)
        (Grows-Linked lib (of_org org table) none 0 refl (log org))

  next_row-chained :
      NeverEmpty lib
      → (table : List AuditRow) (entry : Entry) → IsLog table
      → is_chained (next_row lib (last_of none (of_org entry.org_id table)) entry) ≡ true
  unfolding next_row
  next_row-chained full table entry log =
      let last = last_of none (of_org entry.org_id table) in
      let (m, at, le, free) =
        free_beyond lib none (of_org entry.org_id table) 0 refl (log entry.org_id) in
      elim (next_row-Sealed full last entry) [
        | inl (empty, before) ↦ elim (full _ empty) [ ]
        | inr (sealed, hashed) ↦
            chained_row lib (next_row lib last entry) m (rw (next_row-seq last entry, at)) sealed
      ]

  chained_one :
      (row : AuditRow) (org : ℕ)
      → is_chained row ≡ true
      → length (chained (of_org org (row ∷ []))) ≡ (if row.org_id == org then 1 else 0)
  chained_one row org h = elim (Bool-cases (row.org_id == org)) [
    | inl same ↦ rw (same, h)
    | inr other ↦ rw other
  ]

  count_step :
      (org : ℕ) (entry : Entry) (entries : List Entry) (n : ℕ)
      → (n + (if entry.org_id == org then 1 else 0)) + count_of org entries
        ≡ n + count_of org (entry ∷ entries)
  count_step org entry entries n = elim (Bool-cases (entry.org_id == org)) [
    | inl h ↦ rw h (omega arith)
    | inr h ↦ rw h (omega arith)
  ]

  next_row-counted :
      NeverEmpty lib
      → (table : List AuditRow) (entry : Entry) (org : ℕ) → IsLog table
      → length (
          chained (
            of_org org
              (table ++ next_row lib (last_of none (of_org entry.org_id table)) entry ∷ [])))
        ≡ length (chained (of_org org table)) + (if entry.org_id == org then 1 else 0)
  next_row-counted full table entry org log =
      let row = next_row lib (last_of none (of_org entry.org_id table)) entry in
      rw
        (
          of_org-append org table (row ∷ []),
          chained-append (of_org org table) (of_org org (row ∷ [])),
          length-append (chained (of_org org table)) (chained (of_org org (row ∷ []))),
        )
        (ap (λ n. length (chained (of_org org table)) + n)
          (rw (
            chained_one row org (next_row-chained full table entry log),
            next_row-org (last_of none (of_org entry.org_id table)) entry,
          )))

  append_all-IsLog :
      NeverEmpty lib
      → (entries : List Entry) (table : List AuditRow) → IsLog table
      → (more : List AuditRow) × (append_all entries table ≡ some (table ++ more))
        × IsLog (table ++ more)
        × ((org : ℕ)
            → length (chained (of_org org (table ++ more)))
              ≡ length (chained (of_org org table)) + count_of org entries)
  append_all-IsLog full [] table log = (
    [],
    rw (append-nil table),
    rw (append-nil table) log,
    λ org. rw (append-nil table) (omega arith),
  )
  append_all-IsLog full (entry ∷ entries) table log =
      let (this, log') = append_chained-IsLog full table entry log in
      let row = next_row lib (last_of none (of_org entry.org_id table)) entry in
      let (more, run, done, counted) = append_all-IsLog full entries (table ++ row ∷ []) log' in
      (
        row ∷ more,
        rw (append_all, this, run, append_assoc table (row ∷ []) more),
        rw (append_assoc table (row ∷ []) more) at done,
        λ org.
            (rw (append_assoc table (row ∷ []) more) at (counted org))
            ∙ rw (next_row-counted full table entry org log)
                (count_step org entry entries (length (chained (of_org org table)))),
      )

  -- Starting from any log, any sequence of appends, for any organisations in any order, is accepted,
  -- adds only rows at the end, and leaves a log; afterwards every organisation's chain verifies as
  -- intact, and the report counts the chained rows from before and each entry of that organisation
  -- once. The digest is required never to be the empty text.
  pub append_all-verify_chain :
      NeverEmpty lib
      → (entries : List Entry) (table : List AuditRow) → IsLog table
      → (more : List AuditRow) × (append_all entries table ≡ some (table ++ more))
        × IsLog (table ++ more)
        × ((org : ℕ)
            → (verify_chain lib (of_org org (table ++ more))
                ≡ intact_report lib (chained (of_org org (table ++ more))))
              × (length (chained (of_org org (table ++ more)))
                  ≡ length (chained (of_org org table)) + count_of org entries))
  append_all-verify_chain full entries table log =
      let (more, run, log', counted) = append_all-IsLog full entries table log in
      (more, run, log', λ org. (IsLog-verify_chain (table ++ more) org log', counted org))
