-- ===== src/Text/Split.antt =====
-- Splitting at a character and joining again.
use zed_api_server_rs.Prelude.{
  ℕ, ◌≡◌, refl, sym, ap, ◌∙◌, ◌≢◌, Bool, true, false, List, [], ◌∷◌, ◌++◌, arith, ◌==◌, ==_refl,
  if◌then◌else◌, All, All-append, append_assoc,
}
use zed_api_server_rs.Text.{Str, split, cons_head}
use zed_api_server_rs.Text.Search.{Lacks}

-- `parts.join(d)`.
abbrev pub join : ℕ → List Str → Str
join d [] = []
join d (s ∷ []) = s
join d (s ∷ t ∷ parts) = s ++ d ∷ join d (t ∷ parts)

abbrev at : ℕ → ℕ → Bool
at d c = c == d

split-ne-nil : (p : ℕ → Bool) (s : Str) → split p s ≢ []
unfolding split
split-ne-nil p [] = λ e. cc
split-ne-nil p (c ∷ s) =
    elim (p c) as (λ b. (if b then [] ∷ split p s else cons_head c (split p s)) ≢ []) [
      | true ↦ λ e. cc
      | false ↦ elim (split p s) as (λ parts. cons_head c parts ≢ []) [
        | [] ↦ λ e. cc
        | t ∷ ts ↦ λ e. cc
      ]
    ]

join-nil : (d : ℕ) (parts : List Str) → parts ≢ [] → join d ([] ∷ parts) ≡ d ∷ join d parts
join-nil d [] h = absurd (h refl)
join-nil d (t ∷ parts) h = refl

join-cons_head :
    (d c : ℕ) (parts : List Str) → parts ≢ [] → join d (cons_head c parts) ≡ c ∷ join d parts
join-cons_head d c [] h = absurd (h refl)
join-cons_head d c (t ∷ []) h = refl
join-cons_head d c (t ∷ u ∷ parts) h = refl

pub join-split : (d : ℕ) (s : Str) → join d (split (λ c. c == d) s) ≡ s
unfolding split
join-split d [] = refl
join-split d (c ∷ s) = ground (
  arith,
  join-split d s,
  join-nil d (split (at d) s) (split-ne-nil (at d) s),
  join-cons_head d c (split (at d) s) (split-ne-nil (at d) s),
)

Lacks-cons_head :
    (d c : ℕ) (parts : List Str) → c ≢ d → All (Lacks d) parts → All (Lacks d) (cons_head c parts)
Lacks-cons_head d c [] n h = ((n, tt), tt)
Lacks-cons_head d c (t ∷ parts) n (p, h) = ((n, p), h)

-- No part holds the separator.
pub split-Lacks : (d : ℕ) (s : Str) → All (Lacks d) (split (λ c. c == d) s)
unfolding split
split-Lacks d [] = (tt, tt)
split-Lacks d (c ∷ s) = ground (arith, split-Lacks d s, Lacks-cons_head d c (split (at d) s))

split_whole : (d : ℕ) (s : Str) → Lacks d s → split (λ c. c == d) s ≡ s ∷ []
unfolding split
split_whole d [] h = refl
split_whole d (c ∷ s) (n, h) = ground (arith, split_whole d s h)

split_first :
    (d : ℕ) (s t : Str) → Lacks d s → split (λ c. c == d) (s ++ d ∷ t) ≡ s ∷ split (λ c. c == d) t
unfolding split
split_first d [] t h = rw (==_refl d)
split_first d (c ∷ s) t (n, h) = ground (arith, split_first d s t h)

pub split-join :
    (d : ℕ) (s : Str) (parts : List Str)
    → All (Lacks d) (s ∷ parts)
    → split (λ c. c == d) (join d (s ∷ parts)) ≡ s ∷ parts
split-join d s [] (h, _) = split_whole d s h
split-join d s (t ∷ parts) (h, k) =
    split_first d s (join d (t ∷ parts)) h ∙ ap (λ u. s ∷ u) (split-join d t parts k)

-- What is in no part and is not the separator is not in the joined text.
pub Lacks-join : (d e : ℕ) (parts : List Str) → e ≢ d → All (Lacks d) parts → Lacks d (join e parts)
Lacks-join d e [] n h = tt
Lacks-join d e (s ∷ []) n (p, h) = p
Lacks-join d e (s ∷ t ∷ parts) n (p, h) =
    All-append (λ c. c ≢ d) s (e ∷ join e (t ∷ parts)) p (n, Lacks-join d e (t ∷ parts) n h)

-- A joined text of parts that are not empty does not end in the separator.
last_char :
    (d c : ℕ) (s : Str) → Lacks d (c ∷ s) → (t : Str) × (e : ℕ) × (c ∷ s ≡ t ++ e ∷ []) × (e ≢ d)
last_char d c [] (n, h) = ([], c, refl, n)
last_char d c (x ∷ s) (n, h) =
    let (t, e, eq, m) = last_char d x s h in (c ∷ t, e, ap (λ u. c ∷ u) eq, m)

pub join_last :
    (d : ℕ) (s : Str) (parts : List Str)
    → All (λ u. (u ≢ []) × Lacks d u) (s ∷ parts)
    → (t : Str) × (e : ℕ) × (join d (s ∷ parts) ≡ t ++ e ∷ []) × (e ≢ d)
join_last d [] [] ((n, _), _) = absurd (n refl)
join_last d (c ∷ s) [] ((_, h), _) = last_char d c s h
join_last d s (u ∷ parts) (_, k) =
    let (t, e, eq, m) = join_last d u parts k in
    (s ++ d ∷ t, e, ap (λ v. s ++ d ∷ v) eq ∙ sym (append_assoc s (d ∷ t) (e ∷ [])), m)
