-- ===== src/StorageReport/Objects.antt =====
-- What the verdict of src/storage_report.rs on an object means.
use zed_api_server_rs.Prelude.{
  ℕ, ◌≡◌, refl, ◌↔◌, inl, inr, true, false, Option, none, some, arith, if◌then◌else◌, Bool-cases,
}
use zed_api_server_rs.Text.{Str, str, to_ascii_lowercase, eq_ignore_ascii_case}
use zed_api_server_rs.Text.Equality.{str_eq_iff}
use zed_api_server_rs.StorageReport.{
  ObjectHead, Reconciliation, consistent, missing, divergent, reconcile, size_differs,
  digest_differs, size_detail,
}

-- A size that the store reports is the recorded one.
abbrev pub SizeAgrees : ℕ → Option ℕ → Type 0
SizeAgrees recorded none = Unit
SizeAgrees recorded (some stored) = stored ≡ recorded

-- A digest that the store carries is the recorded one, whatever the case of its letters.
abbrev pub DigestAgrees : Str → Option Str → Type 0
DigestAgrees recorded none = Unit
DigestAgrees recorded (some stored) = to_ascii_lowercase stored ≡ to_ascii_lowercase recorded

eq_ignore_ascii_case_iff :
    (s t : Str) → (eq_ignore_ascii_case s t ≡ true) ↔ (to_ascii_lowercase s ≡ to_ascii_lowercase t)
unfolding eq_ignore_ascii_case
eq_ignore_ascii_case_iff s t = str_eq_iff (to_ascii_lowercase s) (to_ascii_lowercase t)

SizeAgrees-iff :
    (recorded : ℕ) (stored : Option ℕ)
    → (size_differs recorded stored ≡ false) ↔ SizeAgrees recorded stored
SizeAgrees-iff recorded none = ((λ h. tt), (λ h. refl))
SizeAgrees-iff recorded (some stored) = ground arith

DigestAgrees-iff :
    (recorded : Str) (stored : Option Str)
    → (digest_differs recorded stored ≡ false) ↔ DigestAgrees recorded stored
DigestAgrees-iff recorded none = ((λ h. tt), (λ h. refl))
DigestAgrees-iff recorded (some stored) = ground (arith, eq_ignore_ascii_case_iff stored recorded)

reconcile_lem :
    (bytes : ℕ) (digest : Str) (head : ObjectHead)
    → reconcile bytes digest (some head) ≡ (
        if size_differs bytes head.size
        then divergent (size_detail bytes head.size)
        else if digest_differs digest head.sha256
        then divergent (str "stored object digest metadata does not match the registry digest")
        else consistent)
unfolding reconcile
reconcile_lem bytes digest head = refl

reconcile-none : (bytes : ℕ) (digest : Str) → reconcile bytes digest none ≡ missing
unfolding reconcile
reconcile-none bytes digest = refl

-- What each verdict says of the recorded size and digest and of the store's answer.
abbrev pub Verdict : ℕ → Str → Option ObjectHead → Reconciliation → Type 0
Verdict bytes digest head missing = head ≡ none
Verdict bytes digest head consistent =
    (h : ObjectHead) × (head ≡ some h) × SizeAgrees bytes h.size × DigestAgrees digest h.sha256
Verdict bytes digest head (divergent detail) =
    (h : ObjectHead) × (head ≡ some h) × ¬ (SizeAgrees bytes h.size × DigestAgrees digest h.sha256)

-- Every verdict on an object is right: `missing` stands only where the store has no object,
-- `consistent` only where it has one whose known size is the recorded one and whose known digest is
-- the recorded one up to the case of letters, and `divergent` only where it has one of which one of
-- these differs.
pub reconcile-Verdict :
    (bytes : ℕ) (digest : Str) (head : Option ObjectHead)
    → Verdict bytes digest head (reconcile bytes digest head)
reconcile-Verdict bytes digest none = rw (reconcile-none bytes digest) refl
reconcile-Verdict bytes digest (some head) =
    rw (reconcile_lem bytes digest head) (elim (Bool-cases (size_differs bytes head.size)) [
      | inl differs ↦
          rw differs (head, refl, λ h. cc (rw ((SizeAgrees-iff bytes head.size).1 h.0) at differs))
      | inr agrees ↦ elim (Bool-cases (digest_differs digest head.sha256)) [
        | inl differs ↦
            rw (agrees, differs)
              (head, refl, λ h. cc (rw ((DigestAgrees-iff digest head.sha256).1 h.1) at differs))
        | inr same ↦
            rw (agrees, same)
              (
                head,
                refl,
                (SizeAgrees-iff bytes head.size).0 agrees,
                (DigestAgrees-iff digest head.sha256).0 same,
              )
      ]
    ])
