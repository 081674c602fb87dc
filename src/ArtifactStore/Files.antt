-- ===== src/ArtifactStore/Files.antt =====
-- src/storage.rs, local backend: what is found in a directory after files are added or removed.
use mathlib.Core.Option.{none-ne-some}
use zed_api_server_rs.Prelude.{
  none, some, [], ◌∷◌, ◌++◌, if◌then◌else◌, ◌≡◌, refl, sym, subst, ◌∙◌, inl, inr, ◌≢◌, Bool-cases,
}
use zed_api_server_rs.Text.{Str, str_eq}
use zed_api_server_rs.Text.Equality.{str_eq_iff, str_eq_refl, str_eq_ne}
use zed_api_server_rs.ArtifactStore.Local.{Node, Files, lookup, remove}

lookup_nil : (k : Str) → lookup k [] ≡ none
unfolding lookup
lookup_nil k = refl

lookup_cons :
    (k p : Str) (n : Node) (files : Files)
    → lookup k ((p, n) ∷ files) ≡ (if str_eq p k then some n else lookup k files)
unfolding lookup
lookup_cons k p n files = refl

remove_cons :
    (k p : Str) (n : Node) (files : Files)
    → remove k ((p, n) ∷ files) ≡ (if str_eq p k then remove k files else (p, n) ∷ remove k files)
unfolding remove
remove_cons k p n files = refl

remove_nil : (t k : Str) → lookup k (remove t []) ≡ lookup k []
unfolding remove
remove_nil t k = refl

pub lookup_here : (p : Str) (n : Node) (files : Files) → lookup p ((p, n) ∷ files) ≡ some n
lookup_here p n files = rw (lookup_cons p p n files, str_eq_refl p)

pub lookup_other :
    (k p : Str) (n : Node) (files : Files) → p ≢ k → lookup k ((p, n) ∷ files) ≡ lookup k files
lookup_other k p n files h = rw (lookup_cons k p n files, str_eq_ne p k h)

pub lookup-append :
    (k : Str) (n : Node) (files others : Files)
    → lookup k files ≡ some n
    → lookup k (files ++ others) ≡ some n
lookup-append k n [] others h = elim (none-ne-some _ (sym (lookup_nil k) ∙ h)) [ ]
lookup-append k n ((p, m) ∷ files) others h =
    let e = sym (lookup_cons k p m files) ∙ h in
    lookup_cons k p m (files ++ others) ∙ elim (Bool-cases (str_eq p k)) [
      | inl same ↦ rw same (subst (λ b. (if b then some m else lookup k files) ≡ some n) same e)
      | inr differ ↦ rw differ (
          lookup-append k n files others
            (subst (λ b. (if b then some m else lookup k files) ≡ some n) differ e))
    ]

pub lookup-remove : (k t : Str) (files : Files) → t ≢ k → lookup k (remove t files) ≡ lookup k files
lookup-remove k t [] h = remove_nil t k
lookup-remove k t ((p, m) ∷ files) h = elim (Bool-cases (str_eq p t)) [
  | inl same ↦
      rw (remove_cons t p m files, same)
        (lookup-remove k t files h
          ∙ sym (lookup_other k p m files (λ e. h (sym ((str_eq_iff p t).0 same) ∙ e))))
  | inr differ ↦ rw (
    remove_cons t p m files,
    differ,
    lookup_cons k p m (remove t files),
    lookup_cons k p m files,
    lookup-remove k t files h,
  )
]
