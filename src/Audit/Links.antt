-- ===== src/Audit/Links.antt =====
-- What an intact chain is, and that the walk of src/audit.rs decides it.
use zed_api_server_rs.Prelude.{
  ℕ, ◌+◌, ◌≡◌, refl, ◌∙◌, ap, ◌↔◌, inl, inr, true, false, Option, none, some, List, [], ◌∷◌, ◌++◌,
  arith, Bool-cases, length, ℤ, succ, eq_ℤ_iff,
}
use native.Mathlib.Nat.{add-zero}
use zed_api_server_rs.Text.{Str, str_eq}
use zed_api_server_rs.Text.Equality.{str_eq_iff}
use zed_api_server_rs.Audit.{
  AuditRow, is_chained, ChainLibrary, ChainReport, expected_hash, is_gap, walk, chained,
  verify_chain,
}

-- A position follows the one that the predecessor leads to, if there is one.
abbrev pub Follows : Option ℤ → ℤ → Type 0
Follows none seq = Unit
Follows (some want) seq = seq ≡ want

pub chained-append : (xs ys : List AuditRow) → chained (xs ++ ys) ≡ chained xs ++ chained ys
chained-append [] ys = refl
chained-append (x ∷ xs) ys = elim (Bool-cases (is_chained x)) [
  | inl h ↦ rw (h, chained-append xs ys)
  | inr h ↦ rw (h, chained-append xs ys)
]

module _ (lib : ChainLibrary) where
  -- Each row stands one position behind its predecessor, and its hash is that of its contents behind
  -- the predecessor's hash.
  abbrev pub Linked : Str → Option ℤ → List AuditRow → Type 0
  Linked prev want [] = Unit
  Linked prev want (row ∷ rows) =
      Follows want row.seq
      × (expected_hash lib row prev ≡ row.entry_hash)
      × Linked row.entry_hash (some (succ row.seq)) rows

  -- The hash at the end of a chain.
  abbrev pub head_from : Option Str → List AuditRow → Option Str
  head_from head [] = head
  head_from head (row ∷ rows) = head_from (some row.entry_hash) rows

  gap-Follows : (want : Option ℤ) (seq : ℤ) → is_gap want seq ≡ false → Follows want seq
  gap-Follows none seq h = tt
  gap-Follows (some w) seq h = ground (arith, eq_ℤ_iff seq w)

  pub Follows-gap : (want : Option ℤ) (seq : ℤ) → Follows want seq → is_gap want seq ≡ false
  Follows-gap none seq h = refl
  Follows-gap (some w) seq h = ground (arith, eq_ℤ_iff seq w)

  pub walk-Linked :
      (rows : List AuditRow) (prev : Str) (want : Option ℤ) (checked : ℕ) (head : Option Str)
      → (walk lib prev want checked head rows).intact ≡ true
      → Linked prev want rows
  unfolding walk
  walk-Linked [] prev want checked head h = tt
  walk-Linked (row ∷ rows) prev want checked head h = elim (Bool-cases (is_gap want row.seq)) [
    | inl gap ↦ cc (rw gap at h)
    | inr close ↦ elim (Bool-cases (str_eq (expected_hash lib row prev) row.entry_hash)) [
      | inr differs ↦ cc (rw (close, differs) at h)
      | inl same ↦ (
        gap-Follows want row.seq close,
        (str_eq_iff _ _).0 same,
        walk-Linked rows row.entry_hash (some (succ row.seq)) (checked + 1) (some row.entry_hash)
            (rw (close, same) at h),
      )
    ]
  ]

  pub Linked-walk :
      (rows : List AuditRow) (prev : Str) (want : Option ℤ) (checked : ℕ) (head : Option Str)
      → Linked prev want rows
      → walk lib prev want checked head rows ≡ record {
        intact = true;
        entries_checked = checked + length rows;
        first_bad_seq = none;
        problem = none;
        head_hash = head_from head rows;
      }
  unfolding walk
  Linked-walk [] prev want checked head h = rw add-zero
  Linked-walk (row ∷ rows) prev want checked head (follows, hashed, linked) =
      rw
        (
          Follows-gap want row.seq follows,
          (str_eq_iff (expected_hash lib row prev) row.entry_hash).1 hashed,
          Linked-walk rows row.entry_hash (some (succ row.seq)) (checked + 1) (some row.entry_hash)
              linked,
        )
        (ap
          (λ n. record {
            intact = true;
            entries_checked = n;
            first_bad_seq = none;
            problem = none;
            head_hash = head_from (some row.entry_hash) rows;
          })
          (omega arith))

  -- The report on an intact chain.
  abbrev pub intact_report : List AuditRow → ChainReport
  intact_report rows = record {
    intact = true;
    entries_checked = length rows;
    first_bad_seq = none;
    problem = none;
    head_hash = head_from none rows;
  }

  pub verify_chain_lem :
      (rows : List AuditRow) → verify_chain lib rows ≡ walk lib [] none 0 none (chained rows)
  unfolding verify_chain
  verify_chain_lem rows = refl

  pub Linked-verify_chain :
      (rows : List AuditRow)
      → Linked [] none (chained rows)
      → verify_chain lib rows ≡ intact_report (chained rows)
  Linked-verify_chain rows linked =
      verify_chain_lem rows
      ∙ Linked-walk (chained rows) [] none 0 none linked
      ∙ ap
          (λ n. record {
            intact = true;
            entries_checked = n;
            first_bad_seq = none;
            problem = none;
            head_hash = head_from none (chained rows);
          })
          (omega arith)

  -- The verifier reports a chain as intact exactly if its chained rows stand in consecutive positions
  -- and every one has the hash of its contents behind its predecessor's hash, the first behind none.
  pub verify_chain-intact_iff :
      (rows : List AuditRow)
      → ((verify_chain lib rows).intact ≡ true) ↔ Linked [] none (chained rows)
  verify_chain-intact_iff rows = (
    (λ h. walk-Linked (chained rows) [] none 0 none (rw (verify_chain_lem rows) at h)),
    (λ linked. ap (λ (r : ChainReport). r.intact) (Linked-verify_chain rows linked)),
  )
