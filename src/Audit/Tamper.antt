-- ===== src/Audit/Tamper.antt =====
-- What the walk of src/audit.rs finds when rows of an intact chain are changed or removed.
use zed_api_server_rs.Prelude.{
  ℕ, ◌+◌, ◌≡◌, ◌≢◌, refl, sym, ap, ◌∙◌, true, false, Option, none, some, List, [], ◌∷◌, ◌++◌, arith,
  length, subst, ℤ, succ, eq_ℤ,
}
use zed_api_server_rs.Text.{Str}
use zed_api_server_rs.Text.Equality.{str_eq_iff}
use zed_api_server_rs.Audit.{
  is_chained, AuditRow, AuditChainInput, ChainLibrary, ChainReport, entry_digest, chain_input,
  expected_hash, is_gap, walk, chained, verify_chain, broken, sequence_gap,
}
use zed_api_server_rs.Audit.Links.{
  Linked, head_from, intact_report, Follows, Follows-gap, Linked-verify_chain, chained-append,
  verify_chain-intact_iff, verify_chain_lem,
}

module _ (lib : ChainLibrary) where
  -- The digest inputs of a chain, each behind its predecessor's hash.
  abbrev pub inputs_from : Str → List AuditRow → List AuditChainInput
  inputs_from prev [] = []
  inputs_from prev (row ∷ rows) = chain_input lib row prev ∷ inputs_from row.entry_hash rows

  abbrev pub hash_at_end : Str → List AuditRow → Str
  hash_at_end prev [] = prev
  hash_at_end prev (row ∷ rows) = hash_at_end row.entry_hash rows

  -- No two digest inputs at the same position collide.
  abbrev pub CollisionFree : List AuditChainInput → List AuditChainInput → Type 0
  CollisionFree (a ∷ as') (b ∷ bs) =
      (entry_digest lib a ≡ entry_digest lib b → a ≡ b) × CollisionFree as' bs
  CollisionFree _ _ = Unit

  expected_hash_lem :
      (row : AuditRow) (prev : Str)
      → expected_hash lib row prev ≡ entry_digest lib (chain_input lib row prev)
  unfolding expected_hash
  expected_hash_lem row prev = refl

  same_start :
      (xs ys : List AuditRow) (p q : Str) (w v : Option ℤ)
      → CollisionFree (inputs_from p xs) (inputs_from q ys)
      → Linked lib p w xs
      → Linked lib q v ys
      → length xs ≡ length ys
      → hash_at_end p xs ≡ hash_at_end q ys
      → (p ≡ q) × (inputs_from p xs ≡ inputs_from q ys)
  same_start [] [] p q w v free lx ly len same = (same, refl)
  same_start [] (y ∷ ys) p q w v free lx ly len same = ground arith
  same_start (x ∷ xs) [] p q w v free lx ly len same = ground arith
  same_start (x ∷ xs) (y ∷ ys) p q w v (free, rest_free) (fx, hx, lx) (fy, hy, ly) len same =
      let (hashes, inputs) =
        same_start xs ys x.entry_hash y.entry_hash (some (succ x.seq)) (some (succ y.seq)) rest_free
          lx ly (omega (arith, len)) same in
      let here : chain_input lib x p ≡ chain_input lib y q =
        free (sym (expected_hash_lem x p) ∙ hx ∙ hashes ∙ sym hy ∙ expected_hash_lem y q) in
      (ap (λ (i : AuditChainInput). i.prev_hash) here, rw (here, inputs))

  head_at_end :
      (h : Str) (rows : List AuditRow) → head_from lib (some h) rows ≡ some (hash_at_end h rows)
  head_at_end h [] = refl
  head_at_end h (row ∷ rows) = head_at_end row.entry_hash rows

  same_end :
      (xs ys : List AuditRow)
      → length xs ≡ length ys
      → head_from lib none xs ≡ head_from lib none ys
      → hash_at_end [] xs ≡ hash_at_end [] ys
  same_end [] [] len same = refl
  same_end [] (y ∷ ys) len same = ground arith
  same_end (x ∷ xs) [] len same = ground arith
  same_end (x ∷ xs) (y ∷ ys) len same =
      some-inj (sym (head_at_end x.entry_hash xs) ∙ same ∙ head_at_end y.entry_hash ys)
    where
      some-inj : {a b : Str} → some a ≡ some b → a ≡ b
      some-inj e = cc

  -- Two chains whose reports are intact and agree, in the number of entries and the head hash, are the
  -- same history: position by position the digested contents are equal, unless the digests of two
  -- entries at the same position collide.
  pub verify_chain-history :
      (xs ys : List AuditRow)
      → CollisionFree (inputs_from [] (chained xs)) (inputs_from [] (chained ys))
      → (verify_chain lib xs).intact ≡ true
      → verify_chain lib xs ≡ verify_chain lib ys
      → inputs_from [] (chained xs) ≡ inputs_from [] (chained ys)
  verify_chain-history xs ys free intact same =
      let linked = (verify_chain-intact_iff lib xs).0 intact in
      let linked' =
        (verify_chain-intact_iff lib ys).0
          (subst (λ (r : ChainReport). r.intact ≡ true) same intact) in
      let reports =
        sym (Linked-verify_chain lib xs linked) ∙ same ∙ Linked-verify_chain lib ys linked' in
      let len : length (chained xs) ≡ length (chained ys) =
        ap (λ (r : ChainReport). r.entries_checked) reports in
      let head : head_from lib none (chained xs) ≡ head_from lib none (chained ys) =
        ap (λ (r : ChainReport). r.head_hash) reports in
      (same_start (chained xs) (chained ys) [] [] none none free linked linked' len
        (same_end (chained xs) (chained ys) len head)).1

  abbrev want_at_end : Option ℤ → List AuditRow → Option ℤ
  want_at_end want [] = want
  want_at_end want (row ∷ rows) = want_at_end (some (succ row.seq)) rows

  Linked-append :
      (xs ys : List AuditRow) (p : Str) (w : Option ℤ)
      → Linked lib p w (xs ++ ys)
      → Linked lib p w xs × Linked lib (hash_at_end p xs) (want_at_end w xs) ys
  Linked-append [] ys p w h = (tt, h)
  Linked-append (x ∷ xs) ys p w (f, e, h) =
      let (this, that) = Linked-append xs ys x.entry_hash (some (succ x.seq)) h in
      ((f, e, this), that)

  walk-append :
      (xs ys : List AuditRow) (p : Str) (w : Option ℤ) (n : ℕ) (h : Option Str)
      → Linked lib p w xs
      → walk lib p w n h (xs ++ ys)
        ≡ walk lib (hash_at_end p xs) (want_at_end w xs) (n + length xs) (head_from lib h xs) ys
  unfolding walk
  walk-append [] ys p w n h l = ap (λ k. walk lib p w k h ys) (omega arith)
  walk-append (x ∷ xs) ys p w n h (f, e, l) =
      rw (Follows-gap lib w x.seq f, (str_eq_iff (expected_hash lib x p) x.entry_hash).1 e)
        (walk-append xs ys x.entry_hash (some (succ x.seq)) (n + 1) (some x.entry_hash) l
          ∙ ap
              (λ k.
                walk lib (hash_at_end x.entry_hash xs) (want_at_end (some (succ x.seq)) xs) k
                  (head_from lib (some x.entry_hash) xs) ys)
              (omega arith))

  -- The start of an intact chain is intact, and the report on it counts the rows that are left: what
  -- is cut off at the end leaves no trace in the report but the count and the head hash.
  pub verify_chain-truncated :
      (xs ys : List AuditRow)
      → (verify_chain lib (xs ++ ys)).intact ≡ true
      → verify_chain lib xs ≡ intact_report lib (chained xs)
  verify_chain-truncated xs ys intact =
      Linked-verify_chain lib xs
        (Linked-append (chained xs) (chained ys) [] none
          (rw (chained-append xs ys) at ((verify_chain-intact_iff lib (xs ++ ys)).0 intact))).0

  walk-gap :
      (row : AuditRow) (rows : List AuditRow) (p : Str) (w : Option ℤ) (n : ℕ) (h : Option Str)
      → is_gap w row.seq ≡ true
      → walk lib p w n h (row ∷ rows) ≡ broken n w sequence_gap h
  unfolding walk
  walk-gap row rows p w n h gap = rw gap

  eq_ℤ-succ : (s : ℤ) → eq_ℤ (succ s) s ≡ false
  eq_ℤ-succ s = ground arith

  nonempty_want :
      (xs : List AuditRow) (w seq : ℤ)
      → Follows (want_at_end (some w) xs) seq
      → want_at_end (some w) xs ≡ some seq
  nonempty_want [] w seq h = ap some (sym h)
  nonempty_want (x ∷ xs) w seq h = nonempty_want xs (succ x.seq) seq h

  want_after :
      (xs : List AuditRow) (seq : ℤ)
      → xs ≢ []
      → Follows (want_at_end none xs) seq
      → want_at_end none xs ≡ some seq
  want_after [] seq ne h = elim (ne refl) [ ]
  want_after (x ∷ xs) seq ne h = nonempty_want xs (succ x.seq) seq h

  gap_behind : (seq seq' : ℤ) (w : Option ℤ) → w ≡ some seq → seq' ≡ succ seq → is_gap w seq' ≡ true
  gap_behind seq seq' w e e' = rw (e, e', eq_ℤ-succ seq)

  deleted :
      (xs ys : List AuditRow) (d y : AuditRow)
      → xs ≢ []
      → Linked lib [] none (xs ++ d ∷ y ∷ ys)
      → walk lib [] none 0 none (xs ++ y ∷ ys)
        ≡ broken (length xs) (some d.seq) sequence_gap (head_from lib none xs)
  deleted xs ys d y ne linked =
      let (start, (fd, ed, (fy, ey, tail))) = Linked-append xs (d ∷ y ∷ ys) [] none linked in
      let wanted = want_after xs d.seq ne fd in
      walk-append xs (y ∷ ys) [] none 0 none start
      ∙ walk-gap y ys (hash_at_end [] xs) (want_at_end none xs) (0 + length xs)
          (head_from lib none xs) (gap_behind d.seq y.seq (want_at_end none xs) wanted fy)
      ∙ rw wanted
          (ap (λ n. broken n (some d.seq) sequence_gap (head_from lib none xs)) (omega arith))

  -- Removing one chained row from inside an intact chain, neither its first row nor its last, is
  -- reported as a gap at exactly the position that was removed, behind the rows before it.
  pub verify_chain-deleted :
      (xs ys : List AuditRow) (d y : AuditRow)
      → is_chained d ≡ true
      → is_chained y ≡ true
      → chained xs ≢ []
      → (verify_chain lib (xs ++ d ∷ y ∷ ys)).intact ≡ true
      → verify_chain lib (xs ++ y ∷ ys)
        ≡ broken (length (chained xs)) (some d.seq) sequence_gap (head_from lib none (chained xs))
  verify_chain-deleted xs ys d y cd cy ne intact =
      let linked =
        rw (chained-append xs (d ∷ y ∷ ys), cd, cy) at
          ((verify_chain-intact_iff lib (xs ++ d ∷ y ∷ ys)).0 intact) in
      verify_chain_lem lib (xs ++ y ∷ ys)
      ∙ rw (chained-append xs (y ∷ ys), cy) (deleted (chained xs) (chained ys) d y ne linked)
