-- ===== src/Audit/Race.antt =====
-- The loop of `record` in src/audit.rs among writers that append at the same time.
use zed_api_server_rs.Prelude.{
  ℕ, zero, suc, ◌-◌, All, ◌<◌, ◌≡◌, ◌≢◌, refl, sym, ◌∙◌, ap, ◌⊎◌, inl, inr, Bool, true, false,
  Option, none, List, [], ◌∷◌, ◌++◌, arith, Bool-cases, length, ℤ, succ, eq_ℤ, eq_ℤ_iff,
  if◌then◌else◌, any, subst, append_assoc, append-nil, take,
}
use zed_api_server_rs.Audit.{
  AuditRow, ChainLibrary, Entry, Attempt, of_org, seq_of, tip, position_taken, next_row,
  record_loop, record_entry, append_attempts,
}
use zed_api_server_rs.Audit.Append.{
  IsLog, NeverEmpty, of_org-append, next_row-IsLog, next_row-free, next_row-seq, next_row-org,
  position_taken_lem, tip_lem,
}
use zed_api_server_rs.Audit.Log.{last_of, Grows, Grows-append}

empty-cases : (xs : List AuditRow) → (xs ≡ []) ⊎ (xs ≢ [])
empty-cases [] = inl refl
empty-cases (x ∷ xs) = inr (λ e. cc)

-- The rows that the other writers of a list of attempts commit.
abbrev pub others_of : List Attempt → List AuditRow
others_of [] = []
others_of (a ∷ attempts) = a.others ++ others_of attempts

-- An attempt that no database error ends but that another writer of the organisation overtakes.
abbrev pub IsLost : ℕ → Attempt → Type 0
IsLost org a = (a.fails ≡ false) × (of_org org a.others ≢ [])

take_split :
    (n : ℕ) (lost : List Attempt) (a : Attempt) (rest : List Attempt)
    → length lost < n
    → take n (lost ++ a ∷ rest) ≡ lost ++ a ∷ take (n - suc (length lost)) rest
take_split zero lost a rest h = ground arith
take_split (suc n) [] a rest h = ap (λ k. a ∷ take k rest) (predecessor n)
  where
    predecessor : (n : ℕ) → n ≡ suc n - 1
    predecessor n = omega arith
take_split (suc n) (x ∷ lost) a rest h =
    ap (λ l. x ∷ l)
      (take_split n lost a rest (omega (arith, h))
        ∙ ap (λ k. lost ++ a ∷ take k rest) (omega arith))

module _ (lib : ChainLibrary) where
  -- `record` among writers that keep the table a log.
  abbrev pub Lawful : List Attempt → List AuditRow → Type 0
  Lawful [] table = Unit
  Lawful (a ∷ as') table = IsLog lib (table ++ a.others) × Lawful as' (table ++ a.others)

  -- Others have appended to the organisation's chain between the read of the tip and the insert.
  abbrev pub Overtaken : ℕ → Attempt → Type 0
  Overtaken org a = of_org org a.others ≢ []

  any-append :
      (seq : ℤ) (xs ys : List AuditRow)
      → any (λ r. eq_ℤ r.seq seq) ys ≡ true
      → any (λ r. eq_ℤ r.seq seq) (xs ++ ys) ≡ true
  any-append seq [] ys h = h
  any-append seq (x ∷ xs) ys h = rw (any-append seq xs ys h) (ground arith)

  first_taken :
      (xs ys : List AuditRow) (last : Option AuditRow)
      → Grows lib last ys
      → ys ≢ []
      → any (λ r. eq_ℤ r.seq (succ (seq_of last))) (xs ++ ys) ≡ true
  first_taken xs [] last h some_row = elim (some_row refl) [ ]
  first_taken xs (y ∷ ys) last (s, l, h) some_row =
      any-append (succ (seq_of last)) xs (y ∷ ys) (rw ((eq_ℤ_iff y.seq (succ (seq_of last))).1 s))

  next_row-taken :
      (table : List AuditRow) (entry : Entry) (more : List AuditRow)
      → IsLog lib (table ++ more)
      → of_org entry.org_id more ≢ []
      → position_taken
          (next_row lib (last_of none (of_org entry.org_id table)) entry)
          (table ++ more)
        ≡ true
  next_row-taken table entry more log some_row =
      let last = last_of none (of_org entry.org_id table) in
      rw
        (
          position_taken_lem (next_row lib last entry) (table ++ more),
          next_row-org lib last entry,
          next_row-seq lib last entry,
          of_org-append entry.org_id table more,
        )
        (first_taken (of_org entry.org_id table) (of_org entry.org_id more) last
          (Grows-append lib none (of_org entry.org_id table) (of_org entry.org_id more)
            (rw (of_org-append entry.org_id table more) at (log entry.org_id))).1
          some_row)

  record_loop_lem :
      (a : Attempt) (rest : List Attempt) (table : List AuditRow) (entry : Entry)
      → record_loop lib (a ∷ rest) table entry ≡ (
          if a.fails
          then (table ++ a.others, false)
          else if position_taken
              (next_row lib (tip entry.org_id table) (record entry { id = a.id; now = a.now }))
              (table ++ a.others)
          then record_loop lib rest (table ++ a.others) entry
          else (
            (table ++ a.others)
                ++ next_row lib (tip entry.org_id table) (record entry { id = a.id; now = a.now })
                  ∷ [],
            true,
          ))
  unfolding record_loop
  record_loop_lem a rest table entry = refl

  -- What one attempt of the loop does to a log.
  pub record_loop-Overtaken :
      (a : Attempt) (rest : List Attempt) (table : List AuditRow) (entry : Entry)
      → IsLog lib table
      → IsLog lib (table ++ a.others)
      → a.fails ≡ false
      → Overtaken entry.org_id a
      → record_loop lib (a ∷ rest) table entry ≡ record_loop lib rest (table ++ a.others) entry
  record_loop-Overtaken a rest table entry log log' fine lost = rw (
    record_loop_lem a rest table entry,
    fine,
    tip_lem lib entry.org_id table log,
    next_row-taken table (record entry { id = a.id; now = a.now }) a.others log' lost,
  )

  next_row-still_free :
      (table : List AuditRow) (entry : Entry) (more : List AuditRow)
      → IsLog lib table
      → of_org entry.org_id more ≡ []
      → position_taken
          (next_row lib (last_of none (of_org entry.org_id table)) entry)
          (table ++ more)
        ≡ false
  next_row-still_free table entry more log quiet =
      let row = next_row lib (last_of none (of_org entry.org_id table)) entry in
      let here : of_org row.org_id (table ++ more) ≡ of_org row.org_id table =
        rw
          (
            next_row-org lib (last_of none (of_org entry.org_id table)) entry,
            of_org-append entry.org_id table more,
            quiet,
          )
          (append-nil (of_org entry.org_id table)) in
      rw (position_taken_lem row (table ++ more), here)
        (sym (position_taken_lem row table) ∙ next_row-free lib table entry log)

  pub record_loop-quiet :
      (a : Attempt) (rest : List Attempt) (table : List AuditRow) (entry : Entry)
      → IsLog lib table
      → a.fails ≡ false
      → of_org entry.org_id a.others ≡ []
      → record_loop lib (a ∷ rest) table entry ≡ (
        (table ++ a.others)
            ++ next_row lib
                (last_of none (of_org entry.org_id table))
                (record entry { id = a.id; now = a.now })
              ∷ [],
        true,
      )
  record_loop-quiet a rest table entry log fine quiet = rw (
    record_loop_lem a rest table entry,
    fine,
    tip_lem lib entry.org_id table log,
    next_row-still_free table (record entry { id = a.id; now = a.now }) a.others log quiet,
  )

  record_loop-failed :
      (a : Attempt) (rest : List Attempt) (table : List AuditRow) (entry : Entry)
      → a.fails ≡ true
      → record_loop lib (a ∷ rest) table entry ≡ (table ++ a.others, false)
  record_loop-failed a rest table entry failed = rw (record_loop_lem a rest table entry, failed)

  record_loop-none :
      (table : List AuditRow) (entry : Entry)
      → IsLog lib table
      → IsLog lib (record_loop lib [] table entry).0
  unfolding record_loop
  record_loop-none table entry log = log

  pub record_loop-IsLog :
      NeverEmpty lib
      → (attempts : List Attempt) (table : List AuditRow) (entry : Entry) → IsLog lib table
      → Lawful attempts table
      → IsLog lib (record_loop lib attempts table entry).0
  record_loop-IsLog full [] table entry log lawful = record_loop-none table entry log
  record_loop-IsLog full (a ∷ rest) table entry log (log', lawful) = elim (Bool-cases a.fails) [
    | inl failed ↦
        subst (λ (p : List AuditRow × Bool). IsLog lib p.0)
          (sym (record_loop-failed a rest table entry failed)) log'
    | inr fine ↦ elim (empty-cases (of_org entry.org_id a.others)) [
      | inl quiet ↦
          subst (λ (p : List AuditRow × Bool). IsLog lib p.0)
            (sym (record_loop-quiet a rest table entry log fine quiet))
            (next_row-IsLog lib full table (record entry { id = a.id; now = a.now }) a.others log'
              quiet)
      | inr lost ↦
          subst (λ (p : List AuditRow × Bool). IsLog lib p.0)
            (sym (record_loop-Overtaken a rest table entry log log' fine lost))
            (record_loop-IsLog full rest (table ++ a.others) entry log' lawful)
    ]
  ]

  -- Whatever the other writers of the table do that keep it a log, `record` leaves a log, on every
  -- path: it appended, it met a database error, or it lost every attempt to another writer.
  -- The digest is required never to be the empty text.
  pub record_entry-IsLog :
      NeverEmpty lib
      → (attempts : List Attempt) (table : List AuditRow) (entry : Entry) → IsLog lib table
      → Lawful (take append_attempts attempts) table
      → IsLog lib (record_entry lib attempts table entry).0
  unfolding record_entry
  record_entry-IsLog full attempts table entry log lawful =
      record_loop-IsLog full (take append_attempts attempts) table entry log lawful

  record_loop-appends :
      (lost : List Attempt) (a : Attempt) (rest : List Attempt) (table : List AuditRow)
      (entry : Entry)
      → IsLog lib table
      → Lawful lost table
      → All (IsLost entry.org_id) lost
      → a.fails ≡ false
      → of_org entry.org_id a.others ≡ []
      → record_loop lib (lost ++ a ∷ rest) table entry ≡ (
        ((table ++ others_of lost) ++ a.others)
            ++ next_row lib
                (last_of none (of_org entry.org_id (table ++ others_of lost)))
                (record entry { id = a.id; now = a.now })
              ∷ [],
        true,
      )
  record_loop-appends [] a rest table entry log lawful all_lost fine quiet =
      rw (append-nil table) (record_loop-quiet a rest table entry log fine quiet)
  record_loop-appends (x ∷ lost) a rest table entry log (log', lawful) ((fine', beaten), all_lost)
        fine quiet =
      record_loop-Overtaken x (lost ++ a ∷ rest) table entry log log' fine' beaten
      ∙ rw (append_assoc table x.others (others_of lost)) at (
          record_loop-appends lost a rest (table ++ x.others) entry log' lawful all_lost fine quiet)

  -- If fewer than four attempts are overtaken by other writers of the organisation, and the next one
  -- neither fails nor is overtaken, then `record` appends exactly one row, the one behind the tip that
  -- the other writers left, with the id and the time of the attempt that succeeds.
  pub record_entry-appends :
      (lost : List Attempt) (a : Attempt) (rest : List Attempt) (table : List AuditRow)
      (entry : Entry)
      → IsLog lib table
      → Lawful lost table
      → All (IsLost entry.org_id) lost
      → length lost < append_attempts
      → a.fails ≡ false
      → of_org entry.org_id a.others ≡ []
      → record_entry lib (lost ++ a ∷ rest) table entry ≡ (
        ((table ++ others_of lost) ++ a.others)
            ++ next_row lib
                (last_of none (of_org entry.org_id (table ++ others_of lost)))
                (record entry { id = a.id; now = a.now })
              ∷ [],
        true,
      )
  unfolding record_entry
  record_entry-appends lost a rest table entry log lawful all_lost few fine quiet =
      rw (take_split append_attempts lost a rest few) (
        record_loop-appends lost a (take (append_attempts - suc (length lost)) rest) table entry log
          lawful all_lost fine quiet)
