-- ===== src/ArtifactStore/WriteOnce.antt =====
-- src/storage.rs, process memory: the map of objects refines a write-once store of bounded size.
use mathlib.Core.Option.{none-ne-some}
use zed_api_server_rs.Prelude.{
  ℕ, ◌+◌, ◌^◌, ◌≤◌, ◌<◌, true, false, Option, none, some, List, [], ◌∷◌, if◌then◌else◌, ltb, length,
  ◌≡◌, refl, ap, sym, subst, ◌∙◌, ◌⊎◌, inl, inr, ◌≢◌, Bool-cases, Option-cases, arith,
}
use zed_api_server_rs.Text.{Str, str_eq}
use zed_api_server_rs.Text.Equality.{str_eq_iff, str_eq-false, str_eq_refl, str_eq_ne}
use zed_api_server_rs.ArtifactStore.{
  Blob, Outcome, done, failed, different_content, capacity_exceeded, accounting_overflow,
  checked_add, get, retained_bytes, next_bytes, or_overflow, put_memory, ◌>>=◌,
}

-- What a client knows of the store: the object under each key, and the bytes in use.
pub record Contents : Type 0 where
  pub view : Str → Option Blob
  pub used : ℕ

abbrev pub total : List (Str × Blob) → ℕ
total [] = 0
total ((k, blob) ∷ objects) = length blob + total objects

abbrev pub contents : List (Str × Blob) → Contents
contents objects = record { view = λ k. get k objects; used = total objects }

-- A write to a write-once store of at most `max_bytes`.
pub data Write (max_bytes : ℕ) (key : Str) (blob : Blob)
    : Contents → Outcome Unit → Contents → Type 0 where
  stored :
      (s t : Contents)
      → s.view key ≡ none
      → t.used ≡ length blob + s.used
      → t.used ≤ max_bytes
      → t.used < 2 ^ 64
      → t.view key ≡ some blob
      → ((k : Str) → k ≢ key → t.view k ≡ s.view k)
      → Write max_bytes key blob s (done tt) t
  kept : (s : Contents) → s.view key ≡ some blob → Write max_bytes key blob s (done tt) s
  collided :
      (s : Contents) (other : Blob)
      → s.view key ≡ some other
      → other ≢ blob
      → Write max_bytes key blob s (failed different_content) s
  full :
      (s : Contents)
      → s.view key ≡ none
      → max_bytes < length blob + s.used
      → Write max_bytes key blob s (failed (capacity_exceeded (length blob + s.used))) s
  uncountable :
      (s : Contents)
      → s.view key ≡ none
      → 2 ^ 64 ≤ length blob + s.used
      → Write max_bytes key blob s (failed accounting_overflow) s

pub ltb-true : (n m : ℕ) → n < m → ltb n m ≡ true
ltb-true n m h = ground arith

pub ltb-false : (n m : ℕ) → m ≤ n → ltb n m ≡ false
ltb-false n m h = ground arith

checked_add_lem :
    (a b : ℕ) → checked_add a b ≡ (if ltb (a + b) (2 ^ 64) then some (a + b) else none)
unfolding checked_add
checked_add_lem a b = refl

pub checked_add-some : (a b : ℕ) → a + b < 2 ^ 64 → checked_add a b ≡ some (a + b)
checked_add-some a b h = rw (checked_add_lem a b, ltb-true (a + b) (2 ^ 64) h)

checked_add-none : (a b : ℕ) → 2 ^ 64 ≤ a + b → checked_add a b ≡ none
checked_add-none a b h = rw (checked_add_lem a b, ltb-false (a + b) (2 ^ 64) h)

pub at_most : (n m : ℕ) → (n < m) ⊎ (m ≤ n)
at_most n m = elim (Bool-cases (ltb n m)) [
  | inl h ↦ inl (ground arith)
  | inr h ↦ inr (ground arith)
]

retained_bytes_cons :
    (t : ℕ) (k : Str) (blob : Blob) (objects : List (Str × Blob))
    → retained_bytes t ((k, blob) ∷ objects)
      ≡ (elim (checked_add t (length blob)) [ none ↦ none | some sum ↦ retained_bytes sum objects ])
unfolding retained_bytes
retained_bytes_cons t k blob objects = refl

-- The running sum is the total, or there is none because the total does not fit.
retained_bytes-total :
    (t : ℕ) (objects : List (Str × Blob))
    → t < 2 ^ 64
    → ((retained_bytes t objects ≡ some (t + total objects)) × (t + total objects < 2 ^ 64))
      ⊎ ((retained_bytes t objects ≡ none) × (2 ^ 64 ≤ t + total objects))
unfolding retained_bytes
retained_bytes-total t [] h = inl (ap some (omega arith), omega arith)
retained_bytes-total t ((k, blob) ∷ objects) h = elim (at_most (t + length blob) (2 ^ 64)) [
  | inl small ↦ elim (retained_bytes-total (t + length blob) objects small) [
    | inl (e, b) ↦ inl (
      rw (retained_bytes_cons t k blob objects, checked_add-some t (length blob) small, e)
          (ap some (omega arith)),
      omega arith,
    )
    | inr (e, b) ↦ inr (
      rw (retained_bytes_cons t k blob objects, checked_add-some t (length blob) small) e,
      omega arith,
    )
  ]
  | inr large ↦ inr (
    rw (retained_bytes_cons t k blob objects, checked_add-none t (length blob) large),
    omega arith,
  )
]

next_bytes_lem :
    (objects : List (Str × Blob)) (blob : Blob)
    → next_bytes objects blob ≡ (
        or_overflow (retained_bytes 0 objects)
        >>= (λ retained. or_overflow (checked_add retained (length blob))))
unfolding next_bytes
next_bytes_lem objects blob = refl

-- The bytes in use with one more object, or the news that they cannot be counted.
next_bytes-total :
    (objects : List (Str × Blob)) (blob : Blob)
    → ((next_bytes objects blob ≡ done (length blob + total objects))
        × (length blob + total objects < 2 ^ 64))
      ⊎ ((next_bytes objects blob ≡ failed accounting_overflow)
          × (2 ^ 64 ≤ length blob + total objects))
next_bytes-total objects blob = elim (retained_bytes-total 0 objects (omega arith)) [
  | inr (e, b) ↦ inr (rw (next_bytes_lem objects blob, e), omega arith)
  | inl (e, b) ↦ elim (at_most (0 + total objects + length blob) (2 ^ 64)) [
    | inl small ↦ inl (
      rw (next_bytes_lem objects blob, e, checked_add-some (0 + total objects) (length blob) small)
          (ap done (omega arith)),
      omega arith,
    )
    | inr large ↦ inr (
      rw (next_bytes_lem objects blob, e, checked_add-none (0 + total objects) (length blob) large),
      omega arith,
    )
  ]
]

get_head :
    (k : Str) (blob : Blob) (objects : List (Str × Blob)) → get k ((k, blob) ∷ objects) ≡ some blob
unfolding get
get_head k blob objects = rw (str_eq_refl k)

get_tail :
    (k key : Str) (blob : Blob) (objects : List (Str × Blob))
    → k ≢ key
    → get k ((key, blob) ∷ objects) ≡ get k objects
unfolding get
get_tail k key blob objects h = rw (str_eq_ne key k (λ e. h (sym e)))

module _ (max_bytes : ℕ) (objects : List (Str × Blob)) (key : Str) (blob : Blob) where
  put_memory_found :
      (existing : Blob)
      → get key objects ≡ some existing
      → put_memory max_bytes objects key blob
        ≡ (if str_eq existing blob then (done tt, objects) else (failed different_content, objects))
  unfolding put_memory
  put_memory_found existing h = rw (h, put_memory)

  put_memory_new :
      get key objects ≡ none
      → put_memory max_bytes objects key blob ≡ (elim (next_bytes objects blob) [
        | failed e ↦ (failed e, objects)
        | done sum ↦
            if ltb max_bytes sum
            then (failed (capacity_exceeded sum), objects)
            else (done tt, (key, blob) ∷ objects)
      ])
  unfolding put_memory
  put_memory_new h = rw (h, put_memory)

  Writes : Outcome Unit × List (Str × Blob) → Type 0
  Writes result = Write max_bytes key blob (contents objects) result.0 (contents result.1)

  found-Write :
      (existing : Blob)
      → get key objects ≡ some existing
      → Writes (put_memory max_bytes objects key blob)
  unfolding Writes
  found-Write existing h = elim (Bool-cases (str_eq existing blob)) [
    | inl e ↦
        subst Writes (sym (put_memory_found existing h ∙ rw e))
          (Write.kept (contents objects) (h ∙ ap some ((str_eq_iff existing blob).0 e)))
    | inr e ↦
        subst Writes (sym (put_memory_found existing h ∙ rw e))
          (Write.collided (contents objects) existing h (str_eq-false existing blob e))
  ]

  new-Write : get key objects ≡ none → Writes (put_memory max_bytes objects key blob)
  unfolding Writes
  new-Write h = elim (next_bytes-total objects blob) [
    | inr (e, b) ↦
        subst Writes (sym (put_memory_new h ∙ rw e)) (Write.uncountable (contents objects) h b)
    | inl (e, b) ↦ elim (at_most max_bytes (length blob + total objects)) [
      | inl over ↦
          subst Writes (sym (put_memory_new h ∙ rw (e, ltb-true _ _ over)))
            (Write.full (contents objects) h over)
      | inr fits ↦ subst Writes (sym (put_memory_new h ∙ rw (e, ltb-false _ _ fits))) (
          Write.stored (contents objects) (contents ((key, blob) ∷ objects)) h refl fits b
            (get_head key blob objects) (λ k other. get_tail k key blob objects other))
    ]
  ]

-- A write of the process-memory backend is a write of the write-once store: a new key is stored
-- when the bytes in use stay within the limit and can be counted in 64 bits, a repeated one is
-- accepted when its bytes are the stored ones, and everything else is refused without a change.
pub put_memory-Write :
    (max_bytes : ℕ) (objects : List (Str × Blob)) (key : Str) (blob : Blob)
    → Write max_bytes key blob
        (contents objects)
        (put_memory max_bytes objects key blob).0
        (contents (put_memory max_bytes objects key blob).1)
unfolding Writes
put_memory-Write max_bytes objects key blob = elim (Option-cases (get key objects)) [
  | inl h ↦ new-Write max_bytes objects key blob h
  | inr (existing, h) ↦ found-Write max_bytes objects key blob existing h
]

-- What a write leaves, whatever it answers.
pub Write-Keeps :
    {max_bytes : ℕ} {key : Str} {blob : Blob} {s t : Contents} {answer : Outcome Unit}
    → Write max_bytes key blob s answer t
    → (k : Str) (other : Blob) → s.view k ≡ some other
    → t.view k ≡ some other
Write-Keeps {key = key} (Write.stored s t absent e fits b here rest) k other found =
    elim (Bool-cases (str_eq k key)) [
      | inl same ↦
          elim (none-ne-some _
            (sym absent ∙ sym (ap s.view ((str_eq_iff k key).0 same)) ∙ found)) [ ]
      | inr differ ↦ rest k (str_eq-false k key differ) ∙ found
    ]
Write-Keeps (Write.kept s present) k other found = found
Write-Keeps (Write.collided s b present differ) k other found = found
Write-Keeps (Write.full s absent over) k other found = found
Write-Keeps (Write.uncountable s absent over) k other found = found

pub Write-Bounded :
    {max_bytes : ℕ} {key : Str} {blob : Blob} {s t : Contents} {answer : Outcome Unit}
    → Write max_bytes key blob s answer t
    → s.used ≤ max_bytes
    → t.used ≤ max_bytes
Write-Bounded (Write.stored s t absent e fits b here rest) h = fits
Write-Bounded (Write.kept s present) h = h
Write-Bounded (Write.collided s b present differ) h = h
Write-Bounded (Write.full s absent over) h = h
Write-Bounded (Write.uncountable s absent over) h = h

-- A sequence of writes, whatever each answers.
abbrev pub put_all : ℕ → List (Str × Blob) → List (Str × Blob) → List (Str × Blob)
put_all max_bytes [] objects = objects
put_all max_bytes ((key, blob) ∷ writes) objects =
    put_all max_bytes writes (put_memory max_bytes objects key blob).1

-- The objects of a store that starts empty never take more than its limit, and an object that was
-- stored by some writes is found unchanged after any further writes.
pub put_all-Bounded :
    (max_bytes : ℕ) (earlier later : List (Str × Blob)) (key : Str) (blob : Blob)
    → get key (put_all max_bytes earlier []) ≡ some blob
    → (total (put_all max_bytes later (put_all max_bytes earlier [])) ≤ max_bytes)
      × (get key (put_all max_bytes later (put_all max_bytes earlier [])) ≡ some blob)
put_all-Bounded max_bytes earlier later key blob found =
    (bounded later _ (bounded earlier [] (omega arith)), keeps later _ found)
  where
    bounded :
        (writes objects : List (Str × Blob))
        → total objects ≤ max_bytes
        → total (put_all max_bytes writes objects) ≤ max_bytes
    bounded [] objects h = h
    bounded ((k, b) ∷ writes) objects h =
        bounded writes _ (Write-Bounded (put_memory-Write max_bytes objects k b) h)

    keeps :
        (writes objects : List (Str × Blob))
        → get key objects ≡ some blob
        → get key (put_all max_bytes writes objects) ≡ some blob
    keeps [] objects h = h
    keeps ((k, b) ∷ writes) objects h =
        keeps writes _ (Write-Keeps (put_memory-Write max_bytes objects k b) key blob h)
