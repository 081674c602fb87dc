-- ===== src/Access/Roles.antt =====
-- What the roles of src/rbac.rs allow.
use zed_api_server_rs.Prelude.{
  ℕ, ◌≡◌, ◌≢◌, refl, sym, ◌∙◌, ◌⊎◌, inl, inr, Bool, true, false, Option, none, some, arith, ◌==◌,
  ==_iff, Bool-cases, if◌then◌else◌, ◌||◌,
}
use zed_api_server_rs.Text.{Str, str, str_eq}
use zed_api_server_rs.Text.Equality.{str_eq_iff}
use zed_api_server_rs.Access.{
  ApiResult, ok, err, unauthorized, forbidden, Role, owner, publisher, reader, parse, as_str,
  is_valid, can_publish, can_manage, cannot_publish, cannot_manage, authorize_publish,
  authorize_manage,
}

parse_lem :
    (s : Str)
    → parse s ≡ (
        if str_eq s (str "owner")
        then owner
        else if str_eq s (str "publisher")
        then publisher
        else if str_eq s (str "reader")
        then reader
        else reader)
unfolding parse
parse_lem s = refl

is_valid_lem :
    (s : Str)
    → is_valid s ≡ (str_eq s (str "owner") || str_eq s (str "publisher") || str_eq s (str "reader"))
unfolding is_valid
is_valid_lem s = refl

as_str_lem :
    (as_str owner ≡ str "owner")
    × (as_str publisher ≡ str "publisher")
    × (as_str reader ≡ str "reader")
unfolding as_str
as_str_lem = (refl, refl, refl)

parse_invalid : (s : Str) → is_valid s ≡ false → parse s ≡ reader
parse_invalid s h = rw (parse_lem s) (ground (arith, is_valid_lem s))

as_str-parse : (s : Str) → is_valid s ≡ true → as_str (parse s) ≡ s
as_str-parse s h = elim (Bool-cases (str_eq s (str "owner"))) [
  | inl a ↦ rw (parse_lem s, a) (as_str_lem.0 ∙ sym ((str_eq_iff s (str "owner")).0 a))
  | inr a ↦ elim (Bool-cases (str_eq s (str "publisher"))) [
    | inl b ↦ rw (parse_lem s, a, b) (as_str_lem.1 ∙ sym ((str_eq_iff s (str "publisher")).0 b))
    | inr b ↦
        rw (parse_lem s, a, b)
          (elim (Bool-cases (str_eq s (str "reader"))) [
            | inl c ↦ rw c (as_str_lem.2 ∙ sym ((str_eq_iff s (str "reader")).0 c))
            | inr c ↦ cc (rw (is_valid_lem s, a, b, c) at h)
          ])
  ]
]

-- Each name is the name of its role, and only the three names are valid: every other text is read as
-- the role with the fewest rights.
pub parse-as_str :
    (r : Role) (s : Str)
    → (parse (as_str r) ≡ r)
      × (is_valid (as_str r) ≡ true)
      × (is_valid s ≡ true → as_str (parse s) ≡ s)
      × (is_valid s ≡ false → parse s ≡ reader)
unfolding parse as_str is_valid
parse-as_str r s = (there r, valid r, as_str-parse s, parse_invalid s)
  where
    there : (r : Role) → parse (as_str r) ≡ r
    there owner = refl
    there publisher = refl
    there reader = refl

    valid : (r : Role) → is_valid (as_str r) ≡ true
    valid owner = refl
    valid publisher = refl
    valid reader = refl

-- Who may act on an organisation: a token without scope, or one of that organisation with the right.
abbrev pub MayAct : (Role → Bool) → Option ℕ → Role → ℕ → Type 0
MayAct right none role org = Unit
MayAct right (some scope) role org = (scope ≡ org) × (right role ≡ true)

-- What each answer says: consent to who may act, no hint of roles to a token of another organisation,
-- and the missing role to one of this organisation.
abbrev pub Judged : (Role → Bool) → (Role → Str) → Option ℕ → Role → ℕ → ApiResult Unit → Type 0
Judged right message scope role org (ok done) = MayAct right scope role org
Judged right message scope role org (err e) =
    (own : ℕ) × (scope ≡ some own)
    × (((own ≢ org) × (e ≡ unauthorized))
        ⊎ ((own ≡ org)
            × (right role ≡ false)
            × (e ≡ forbidden (str "insufficient_role") (message role))))

-- Publishing and managing are judged by scope first and role second: consent is given exactly to a
-- token without scope or one of the organisation with the right, and each refusal names its reason.
-- Whoever may manage may publish.
pub authorize-Judged :
    (scope : Option ℕ) (role : Role) (org : ℕ)
    → Judged can_publish cannot_publish scope role org (authorize_publish scope role org)
      × Judged can_manage cannot_manage scope role org (authorize_manage scope role org)
      × (authorize_manage scope role org ≡ ok tt → authorize_publish scope role org ≡ ok tt)
unfolding authorize_publish authorize_manage
authorize-Judged none role org = (tt, tt, λ h. refl)
authorize-Judged (some scope) role org = elim (Bool-cases (scope == org)) [
  | inr other ↦
      rw other
        ((scope, refl, inl (ground arith, refl)), (scope, refl, inl (ground arith, refl)), λ h. cc)
  | inl same ↦ rw same (by_role role (ground arith))
]
  where
    by_role :
        (role : Role)
        → scope ≡ org
        → Judged can_publish cannot_publish (some scope) role org (
            if can_publish role
            then ok tt
            else err (forbidden (str "insufficient_role") (cannot_publish role)))
          × Judged can_manage cannot_manage (some scope) role org (
              if can_manage role
              then ok tt
              else err (forbidden (str "insufficient_role") (cannot_manage role)))
          × ((if can_manage role
                  then ok tt
                  else err (forbidden (str "insufficient_role") (cannot_manage role)))
                ≡ ok tt
              → (if can_publish role
                  then ok tt
                  else err (forbidden (str "insufficient_role") (cannot_publish role)))
                ≡ ok tt)
    by_role owner e = ((e, refl), (e, refl), λ h. refl)
    by_role publisher e = ((e, refl), (scope, refl, inr (e, refl, refl)), λ h. refl)
    by_role reader e =
        ((scope, refl, inr (e, refl, refl)), (scope, refl, inr (e, refl, refl)), λ h. cc)

pub authorize_publish-MayAct :
    (scope : Option ℕ) (role : Role) (org : ℕ)
    → MayAct can_publish scope role org
    → authorize_publish scope role org ≡ ok tt
unfolding authorize_publish
authorize_publish-MayAct none role org h = refl
authorize_publish-MayAct (some scope) role org (e, right) = rw ((==_iff scope org).1 e, right)
