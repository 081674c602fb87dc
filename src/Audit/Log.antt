-- ===== src/Audit/Log.antt =====
-- The invariant of the audit table: each organisation's rows stand in consecutive positions from 1,
-- those from before the chain first, and every later one is sealed behind its predecessor.
use zed_api_server_rs.Prelude.{
  ℕ, suc, ◌≤◌, ◌<◌, ◌≡◌, ◌≢◌, refl, ◌⊎◌, inl, inr, Bool, true, false, ◌&&◌, Option, none, some,
  List, [], ◌∷◌, ◌++◌, arith, Bool-cases, ℤ, pos, succ, lt_ℤ, eq_ℤ, if◌then◌else◌, is_empty, any,
}
use zed_api_server_rs.Text.{Str}
use zed_api_server_rs.Audit.{
  AuditRow, ChainLibrary, expected_hash, is_chained, chained, seq_of, hash_of, tip_from,
}
use zed_api_server_rs.Audit.Links.{Linked, Follows}

-- The last row of a list behind another.
abbrev pub last_of : Option AuditRow → List AuditRow → Option AuditRow
last_of before [] = before
last_of before (row ∷ rows) = last_of (some row) rows

-- The position of a row, or 0 before the first, as a number.
abbrev pub At : Option AuditRow → ℕ → Type 0
At before n = seq_of before ≡ pos n

-- The position that the walk expects behind a row: none behind a row that is not chained.
abbrev want_of : Option AuditRow → Option ℤ
want_of before = if is_empty (hash_of before) then none else some (succ (seq_of before))

module _ (lib : ChainLibrary) where
  -- A row from before the chain, or one with the hash of its contents behind its predecessor's.
  abbrev pub Sealed : Option AuditRow → AuditRow → Type 0
  Sealed before row =
      ((row.entry_hash ≡ []) × (hash_of before ≡ []))
      ⊎ ((row.entry_hash ≢ []) × (expected_hash lib row (hash_of before) ≡ row.entry_hash))

  abbrev pub Grows : Option AuditRow → List AuditRow → Type 0
  Grows before [] = Unit
  Grows before (row ∷ rows) =
      (row.seq ≡ succ (seq_of before)) × Sealed before row × Grows (some row) rows

  pub Grows-append :
      (before : Option AuditRow) (rows more : List AuditRow)
      → Grows before (rows ++ more)
      → Grows before rows × Grows (last_of before rows) more
  Grows-append before [] more h = (tt, h)
  Grows-append before (row ∷ rows) more (s, l, h) =
      let (this, that) = Grows-append (some row) rows more h in ((s, l, this), that)

  pub Grows-snoc :
      (before : Option AuditRow) (rows : List AuditRow) (row : AuditRow)
      → Grows before rows
      → row.seq ≡ succ (seq_of (last_of before rows))
      → Sealed (last_of before rows) row
      → Grows before (rows ++ row ∷ [])
  Grows-snoc before [] row h s l = (s, l, tt)
  Grows-snoc before (r ∷ rows) row (s', l', h) s l = (s', l', Grows-snoc (some r) rows row h s l)

  next_At :
      (before : Option AuditRow) (row : AuditRow) (n : ℕ)
      → At before n
      → row.seq ≡ succ (seq_of before)
      → At (some row) (suc n)
  next_At before row n at e = rw (e, at)

  -- The tip of a log is its last row.
  pub tip_from-last :
      (best : AuditRow) (rows : List AuditRow) (n : ℕ)
      → At (some best) n
      → Grows (some best) rows
      → tip_from (some best) rows ≡ last_of (some best) rows
  tip_from-last best [] n at h = refl
  tip_from-last best (row ∷ rows) n at (s, l, h) =
      rw (later best row n at s) (tip_from-last row rows (suc n) (next_At (some best) row n at s) h)
    where
      later :
          (best row : AuditRow) (n : ℕ)
          → At (some best) n
          → row.seq ≡ succ best.seq
          → lt_ℤ row.seq best.seq ≡ false
      later best row n at s = rw (s, at) (ground arith)

  -- Positions beyond the last row of a log are free.
  pub free_beyond :
      (before : Option AuditRow) (rows : List AuditRow) (n : ℕ)
      → At before n
      → Grows before rows
      → (m : ℕ) × At (last_of before rows) m
        × (n ≤ m)
        × ((k : ℕ) → m < k → any (λ r. eq_ℤ r.seq (pos k)) rows ≡ false)
  free_beyond before [] n at h = (n, at, omega arith, λ k b. refl)
  free_beyond before (row ∷ rows) n at (s, l, h) =
      let (m, at', le, free) = free_beyond (some row) rows (suc n) (next_At before row n at s) h in
      (m, at', omega arith, λ k b. rw (next_At before row n at s, free k b) (ground arith))

  nonempty : (s : Str) → s ≢ [] → is_empty s ≡ false
  nonempty [] h = elim (h refl) [ ]
  nonempty (c ∷ s) h = refl

  pub chained_row :
      (row : AuditRow) (n : ℕ) → row.seq ≡ pos (suc n) → row.entry_hash ≢ [] → is_chained row ≡ true
  chained_row row n e h = rw (e, nonempty row.entry_hash h) (ground arith)

  &&_false : (b : Bool) → (b && false) ≡ false
  &&_false b = ground arith

  next_Follows :
      (before : Option AuditRow) (row : AuditRow)
      → row.seq ≡ succ (seq_of before)
      → Follows (want_of before) row.seq
  next_Follows before row e = elim (Bool-cases (is_empty (hash_of before))) [
    | inl h ↦ rw h tt
    | inr h ↦ rw h e
  ]

  -- The chained rows of a log are linked.
  pub Grows-Linked :
      (rows : List AuditRow) (before : Option AuditRow) (n : ℕ)
      → At before n
      → Grows before rows
      → Linked lib (hash_of before) (want_of before) (chained rows)
  Grows-Linked [] before n at h = tt
  Grows-Linked (row ∷ rows) before n at (s, inl (none_here, none_before), h) =
      let linked = Grows-Linked rows (some row) (suc n) (next_At before row n at s) h in
      rw (none_here, none_before, &&_false (lt_ℤ (pos 0) row.seq)) (rw none_here at linked)
  Grows-Linked (row ∷ rows) before n at (s, inr (sealed, hashed), h) =
      let linked = Grows-Linked rows (some row) (suc n) (next_At before row n at s) h in
      rw (chained_row row n (next_At before row n at s) sealed)
        (next_Follows before row s, hashed, rw (nonempty row.entry_hash sealed) at linked)
