-- ===== src/AuditRoutes/Newest.antt =====
-- src/routes/audit.rs: filtering the rows of a log and putting the newest first.
use mathlib.Core.List.{Perm}
use mathlib.Core.List.Perm
use zed_api_server_rs.Prelude.{
  ℕ, zero, suc, ◌≡◌, refl, sym, ap, subst, inl, inr, Bool, true, false, ◌&&◌, ◌||◌, List, [], ◌∷◌,
  arith, take, length, All, All-take, ℤ, lt_ℤ, eq_ℤ, ltb, if◌then◌else◌, Bool-cases, not, ◌++◌,
  drop,
}
use zed_api_server_rs.Audit.{AuditRow}
use zed_api_server_rs.AuditRoutes.Listing.{filter_rows, is_newer, insert_newest, order_newest, page}

-- No row has a lower position than one after it.
abbrev pub NotOlder : AuditRow → AuditRow → Type 0
NotOlder row later = lt_ℤ row.seq later.seq ≡ false

abbrev pub Descends : List AuditRow → Type 0
Descends [] = Unit
Descends (row ∷ rows) = All (NotOlder row) rows × Descends rows

not_older_trans : (a b c : ℤ) → lt_ℤ a b ≡ false → lt_ℤ b c ≡ false → lt_ℤ a c ≡ false
not_older_trans a b c h k = ground arith

newer-NotOlder : (row x : AuditRow) → is_newer row x ≡ true → NotOlder row x
newer-NotOlder row x h = order row.seq x.seq (ltb x.at row.at) h
  where
    order : (a b : ℤ) (t : Bool) → (lt_ℤ b a || eq_ℤ b a && t) ≡ true → lt_ℤ a b ≡ false
    order a b t h = ground arith

not_newer : (row x : AuditRow) → is_newer row x ≡ false → NotOlder x row
not_newer row x h = order row.seq x.seq (ltb x.at row.at) h
  where
    order : (a b : ℤ) (t : Bool) → (lt_ℤ b a || eq_ℤ b a && t) ≡ false → lt_ℤ b a ≡ false
    order a b t h = ground arith

pub All-mono :
    {P Q : AuditRow → Type 0} (rows : List AuditRow)
    → ((row : AuditRow) → P row → Q row)
    → All P rows
    → All Q rows
All-mono [] f h = tt
All-mono (row ∷ rows) f (p, h) = (f row p, All-mono rows f h)

All-insert_newest :
    (P : AuditRow → Type 0) (row : AuditRow) (rows : List AuditRow)
    → P row
    → All P rows
    → All P (insert_newest row rows)
All-insert_newest P row [] p h = (p, tt)
All-insert_newest P row (x ∷ rows) p (q, h) = elim (Bool-cases (is_newer row x)) [
  | inl e ↦ rw e (p, (q, h))
  | inr e ↦ rw e (q, All-insert_newest P row rows p h)
]

insert_newest-Descends :
    (row : AuditRow) (rows : List AuditRow) → Descends rows → Descends (insert_newest row rows)
insert_newest-Descends row [] h = (tt, tt)
insert_newest-Descends row (x ∷ rows) (k, h) = elim (Bool-cases (is_newer row x)) [
  | inl e ↦ rw e (
    (
      newer-NotOlder row x e,
      All-mono rows (λ y older. not_older_trans row.seq x.seq y.seq (newer-NotOlder row x e) older)
          k,
    ),
    (k, h),
  )
  | inr e ↦ rw e (
    All-insert_newest (NotOlder x) row rows (not_newer row x e) k,
    insert_newest-Descends row rows h,
  )
]

pub order_newest-Descends : (rows : List AuditRow) → Descends (order_newest rows)
order_newest-Descends [] = tt
order_newest-Descends (row ∷ rows) =
    insert_newest-Descends row (order_newest rows) (order_newest-Descends rows)

pub All-order_newest :
    (P : AuditRow → Type 0) (rows : List AuditRow) → All P rows → All P (order_newest rows)
All-order_newest P [] h = tt
All-order_newest P (row ∷ rows) (p, h) =
    All-insert_newest P row (order_newest rows) p (All-order_newest P rows h)

pub All-filter_rows :
    (keep : AuditRow → Bool) (rows : List AuditRow)
    → All (λ row. keep row ≡ true) (filter_rows keep rows)
All-filter_rows keep [] = tt
All-filter_rows keep (row ∷ rows) = elim (Bool-cases (keep row)) [
  | inl e ↦
      subst
        (λ b.
          All (λ r. keep r ≡ true)
            (if b then row ∷ filter_rows keep rows else filter_rows keep rows))
        (sym e) (e, All-filter_rows keep rows)
  | inr e ↦
      subst
        (λ b.
          All (λ r. keep r ≡ true)
            (if b then row ∷ filter_rows keep rows else filter_rows keep rows))
        (sym e) (All-filter_rows keep rows)
]

pub Descends-take : (n : ℕ) (rows : List AuditRow) → Descends rows → Descends (take n rows)
Descends-take zero rows h = tt
Descends-take (suc n) [] h = tt
Descends-take (suc n) (row ∷ rows) (k, h) =
    (All-take (NotOlder row) n rows k, Descends-take n rows h)

insert_newest-Perm :
    (row : AuditRow) (rows : List AuditRow) → Perm (insert_newest row rows) (row ∷ rows)
insert_newest-Perm row [] = Perm.refl (row ∷ [])
insert_newest-Perm row (x ∷ rows) = elim (Bool-cases (is_newer row x)) [
  | inl e ↦ rw e (Perm.refl (row ∷ x ∷ rows))
  | inr e ↦ rw e (Perm.trans (Perm.cons x (insert_newest-Perm row rows)) (Perm.swap row x rows))
]

pub order_newest-Perm : (rows : List AuditRow) → Perm (order_newest rows) rows
order_newest-Perm [] = Perm.refl []
order_newest-Perm (row ∷ rows) =
    Perm.trans (insert_newest-Perm row (order_newest rows)) (Perm.cons row (order_newest-Perm rows))

-- The rows that a filter drops.
abbrev pub dropped : (AuditRow → Bool) → List AuditRow → List AuditRow
dropped keep rows = filter_rows (λ row. not (keep row)) rows

middle-Perm :
    (row : AuditRow) (front rows : List AuditRow)
    → Perm (front ++ row ∷ rows) (row ∷ (front ++ rows))
middle-Perm row [] rows = Perm.refl (row ∷ rows)
middle-Perm row (x ∷ front) rows =
    Perm.trans (Perm.cons x (middle-Perm row front rows)) (Perm.swap row x (front ++ rows))

pub filter_rows-Perm :
    (keep : AuditRow → Bool) (rows : List AuditRow)
    → Perm (filter_rows keep rows ++ dropped keep rows) rows
filter_rows-Perm keep [] = Perm.refl []
filter_rows-Perm keep (row ∷ rows) = elim (Bool-cases (keep row)) [
  | inl e ↦ rw e (Perm.cons row (filter_rows-Perm keep rows))
  | inr e ↦ rw e (
      Perm.trans (middle-Perm row (filter_rows keep rows) (dropped keep rows))
        (Perm.cons row (filter_rows-Perm keep rows)))
]

pub take-drop : (n : ℕ) (rows : List AuditRow) → take n rows ++ drop n rows ≡ rows
take-drop zero rows = refl
take-drop (suc n) [] = refl
take-drop (suc n) (row ∷ rows) = ap (λ t. row ∷ t) (take-drop n rows)

-- A page is full when a row is behind it, and nothing on it is older than that row.
abbrev pub Behind : ℕ → List AuditRow → AuditRow → Type 0
Behind n rows other = (length rows ≡ n) × All (λ row. NotOlder row other) rows

pub drop-Behind :
    (n : ℕ) (rows : List AuditRow) → Descends rows → All (Behind n (take n rows)) (drop n rows)
drop-Behind zero rows h = all_behind rows
  where
    all_behind : (rows : List AuditRow) → All (Behind zero []) rows
    all_behind [] = tt
    all_behind (row ∷ rows) = ((refl, tt), all_behind rows)
drop-Behind (suc n) [] h = tt
drop-Behind (suc n) (row ∷ rows) (k, h) =
    longer (take n rows) (drop n rows) (All-drop n rows k) (drop-Behind n rows h)
  where
    All-drop :
        (n : ℕ) (rows : List AuditRow) → All (NotOlder row) rows → All (NotOlder row) (drop n rows)
    All-drop zero rows k = k
    All-drop (suc n) [] k = tt
    All-drop (suc n) (x ∷ rows) (p, k) = All-drop n rows k

    longer :
        (page others : List AuditRow)
        → All (NotOlder row) others
        → All (Behind n page) others
        → All (Behind (suc n) (row ∷ page)) others
    longer page [] k h = tt
    longer page (other ∷ others) (p, k) ((full, newer), h) =
        ((ap suc full, (p, newer)), longer page others k h)
