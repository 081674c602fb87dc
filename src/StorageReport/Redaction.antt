-- ===== src/StorageReport/Redaction.antt =====
-- What the redaction of src/storage_report.rs lets through.
use zed_api_server_rs.Prelude.{
  ℕ, zero, suc, ◌≤◌, ◌≡◌, ◌≢◌, refl, ap, ◌∙◌, inl, inr, true, false, [], ◌∷◌, arith, ◌==◌,
  if◌then◌else◌, Bool-cases, ◌++◌, take, length, length-take-le, ◌⊎◌, All, sym, drop, append_assoc,
  append-nil, All-take, All-append_left, subst, Option-cases, ◌-◌,
}
use zed_api_server_rs.Text.{
  Str, str, before, ends_with, contains, split_once_char, first_line, trim, is_whitespace,
}
use zed_api_server_rs.Text.Search.{Lacks, split_once_char_sound, split_once_char-none, Lacks-test}
use zed_api_server_rs.Text.Contains.{
  contains-take, before-contains, before_prefix, split_once-none, take-drop,
}
use zed_api_server_rs.Text.Trim.{All-trim, trim_parts}
use zed_api_server_rs.StorageReport.{
  redact_backend_error, or_unspecified, without_query, max_reason,
}

redact_lem :
    (error : Str)
    → redact_backend_error error
      ≡ or_unspecified (take max_reason (without_query (trim (first_line error))))
unfolding redact_backend_error
redact_lem error = refl

Lacks-before_char : (s : Str) (d : ℕ) → Lacks d (before s (split_once_char s d))
unfolding split_once_char
Lacks-before_char [] d = tt
Lacks-before_char (c ∷ s) d = elim (Bool-cases (c == d)) [
  | inl same ↦ rw same tt
  | inr other ↦ elim (Option-cases (split_once_char s d)) [
    | inl missing ↦
        rw (other, missing)
          (different c d other, subst (λ o. Lacks d (before s o)) missing (Lacks-before_char s d))
    | inr (q, e) ↦
        rw (other, e)
          (different c d other, subst (λ o. Lacks d (before s o)) e (Lacks-before_char s d))
  ]
]
  where
    different : (c d : ℕ) → (c == d) ≡ false → c ≢ d
    different c d h = ground arith

Lacks-first_line : (s : Str) → Lacks 10 (first_line s)
unfolding first_line
Lacks-first_line s = elim (Option-cases (split_once_char s 10)) [
  | inl missing ↦
      rw (missing, first_line) (subst (λ o. Lacks 10 (before s o)) missing (Lacks-before_char s 10))
  | inr (q, e) ↦
      rw (e, first_line) (cut q.0 (subst (λ o. Lacks 10 (before s o)) e (Lacks-before_char s 10)))
]
  where
    cut :
        (l : Str)
        → Lacks 10 l
        → Lacks 10 (if ends_with l (13 ∷ []) then take (length l - 1) l else l)
    cut l h = elim (Bool-cases (ends_with l (13 ∷ []))) [
      | inl carriage ↦ rw carriage (All-take (λ c. c ≢ 10) (length l - 1) l h)
      | inr plain ↦ rw plain h
    ]

abbrev pub IsSafe : Str → Type 0
IsSafe s = (s ≢ []) × (length s ≤ max_reason) × Lacks 10 s × (contains s (str "?X-Amz-") ≡ false)

or_unspecified-IsSafe :
    (s : Str)
    → length s ≤ max_reason
    → Lacks 10 s
    → contains s (str "?X-Amz-") ≡ false
    → IsSafe (or_unspecified s)
or_unspecified-IsSafe [] short line clean = unspecified
  where
    unspecified : IsSafe (str "storage backend reported an unspecified error")
    unspecified =
        unfold str contains in
        (
          (λ e. cc),
          omega arith,
          Lacks-test 10 (str "storage backend reported an unspecified error") refl,
          refl,
        )
or_unspecified-IsSafe (c ∷ s) short line clean = ((λ e. cc), short, line, clean)

Lacks-prefix : (s t p : Str) → s ≡ p ++ t → Lacks 10 s → Lacks 10 p
Lacks-prefix s t p e h = All-append_left (λ c. c ≢ 10) p t (subst (Lacks 10) e h)

query_ne : str "?X-Amz-" ≢ []
unfolding str
query_ne = λ e. cc

take_all : (n : ℕ) (s : Str) → length s ≤ n → take n s ≡ s
take_all zero [] h = refl
take_all zero (c ∷ s) h = ground arith
take_all (suc n) [] h = refl
take_all (suc n) (c ∷ s) h = ap (λ t. c ∷ t) (take_all n s (omega (arith, h)))

or_unspecified_same : (s : Str) → s ≢ [] → or_unspecified s ≡ s
or_unspecified_same [] ne = elim (ne refl) [ ]
or_unspecified_same (c ∷ s) ne = refl

-- The text stands at the front of the error, behind blanks at most.
abbrev pub IsFront : Str → Str → Type 0
IsFront error text =
    (blank : Str) × (rest : Str) × All (λ c. is_whitespace c ≡ true) blank
    × (error ≡ blank ++ (text ++ rest))

IsFront-shorter : (error a b : Str) → IsFront error (a ++ b) → IsFront error a
IsFront-shorter error a b (blank, rest, blanks, e) =
    (blank, b ++ rest, blanks, e ∙ ap (λ t. blank ++ t) (append_assoc a b rest))

first_line_prefix : (s : Str) → (t : Str) × (s ≡ first_line s ++ t)
unfolding first_line
first_line_prefix s = elim (Option-cases (split_once_char s 10)) [
  | inl missing ↦ rw (missing, first_line) ([], sym (append-nil s))
  | inr (q, e) ↦ rw (e, first_line) (cut q.0 q.1 (split_once_char_sound s q.0 q.1 10 e))
]
  where
    cut :
        (l r : Str)
        → s ≡ l ++ 10 ∷ r
        → (t : Str) × (s ≡ (if ends_with l (13 ∷ []) then take (length l - 1) l else l) ++ t)
    cut l r e = elim (Bool-cases (ends_with l (13 ∷ []))) [
      | inl carriage ↦ rw carriage (
        drop (length l - 1) l ++ 10 ∷ r,
        e
            ∙ ap (λ t. t ++ 10 ∷ r) (sym (take-drop (length l - 1) l))
            ∙ append_assoc (take (length l - 1) l) (drop (length l - 1) l) (10 ∷ r),
      )
      | inr plain ↦ rw plain (10 ∷ r, e)
    ]

trim-IsFront : (s : Str) → IsFront s (trim s)
trim-IsFront s = let (blank, rest, blanks, _, e) = trim_parts s in (blank, rest, blanks, e)

IsFront-longer : (s t a : Str) → IsFront s a → IsFront (s ++ t) a
IsFront-longer s t a (blank, rest, blanks, e) = (
  blank,
  rest ++ t,
  blanks,
  ap (λ u. u ++ t) e
      ∙ append_assoc blank (a ++ rest) t
      ∙ ap (λ u. blank ++ u) (append_assoc a rest t),
)

shown-IsFront :
    (error : Str) → IsFront error (take max_reason (without_query (trim (first_line error))))
shown-IsFront error =
    let line = trim (first_line error) in
    let (t, e) = first_line_prefix error in
    let (cut, f) = before_prefix line (str "?X-Amz-") in
    let whole : IsFront error line =
      subst (λ u. IsFront u line) (sym e)
        (IsFront-longer (first_line error) t line (trim-IsFront (first_line error))) in
    let head : IsFront error (without_query line) =
      IsFront-shorter error (without_query line) cut (subst (IsFront error) f whole) in
    IsFront-shorter error (take max_reason (without_query line))
      (drop max_reason (without_query line))
      (subst (IsFront error) (sym (take-drop max_reason (without_query line))) head)

or_unspecified-IsFront :
    (error s : Str)
    → IsFront error s
    → (or_unspecified s ≡ str "storage backend reported an unspecified error")
      ⊎ IsFront error (or_unspecified s)
or_unspecified-IsFront error [] h = inl refl
or_unspecified-IsFront error (c ∷ s) h = inr h

-- A reason that an operator sees is one line of at most 200 characters, never empty, without the
-- text `?X-Amz-`. It is the fixed text for an unspecified error, or stands at the front of the
-- backend's error with at most blanks before it, so that nothing behind the first `?X-Amz-` is shown.
pub redact_backend_error-IsSafe :
    (error : Str)
    → IsSafe (redact_backend_error error)
      × ((redact_backend_error error ≡ str "storage backend reported an unspecified error")
          ⊎ IsFront error (redact_backend_error error))
redact_backend_error-IsSafe error =
    let line = trim (first_line error) in
    let (t, e) = before_prefix line (str "?X-Amz-") in
    rw (redact_lem error) (
      or_unspecified-IsSafe (take max_reason (without_query line))
          (length-take-le max_reason (without_query line))
          (All-take (λ c. c ≢ 10) max_reason (without_query line)
            (Lacks-prefix line t (without_query line) e
              (All-trim (λ c. c ≢ 10) (first_line error) (Lacks-first_line error))))
          (contains-take max_reason (without_query line) (str "?X-Amz-")
            (before-contains line (str "?X-Amz-") query_ne)),
      or_unspecified-IsFront error (take max_reason (without_query line)) (shown-IsFront error),
    )

first_line_whole : (s : Str) → Lacks 10 s → first_line s ≡ s
unfolding first_line
first_line_whole s h = rw (split_once_char-none s 10 h, first_line)

-- A message of one line that is not blank at its ends, is not empty, has at most 200 characters and
-- holds no presigned query is shown as it is, whatever else stands in it.
pub redact_backend_error-verbatim :
    (error : Str)
    → error ≢ []
    → length error ≤ max_reason
    → Lacks 10 error
    → trim error ≡ error
    → contains error (str "?X-Amz-") ≡ false
    → redact_backend_error error ≡ error
redact_backend_error-verbatim error ne short line trimmed clean =
    redact_lem error
    ∙ rw
        (
          first_line_whole error line,
          trimmed,
          split_once-none error (str "?X-Amz-") clean,
          take_all max_reason error short,
        )
        (or_unspecified_same error ne)
