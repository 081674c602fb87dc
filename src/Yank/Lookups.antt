-- ===== src/Yank/Lookups.antt =====
-- What the lookups and the update of src/routes/yank.rs answer.
use mathlib.Core.List.{Memᴰ}
use zed_api_server_rs.Prelude.{
  ℕ, ◌≡◌, ◌≢◌, refl, sym, ap, subst, ◌∙◌, ◌⊎◌, inl, inr, Bool, true, false, Option, none, some,
  List, [], ◌∷◌, arith, ◌==◌, ==_iff, Bool-cases, if◌then◌else◌, ◌&&◌, &&_parts,
}
use zed_api_server_rs.Text.{Str, str_eq}
use zed_api_server_rs.Text.Equality.{str_eq_iff}
use zed_api_server_rs.Access.{ApiErr, ApiResult, ok, err, ◌>>=◌, query}
use zed_api_server_rs.Access.Credentials.{one_sound}
use zed_api_server_rs.Yank.{
  OrgRow, PackageRow, VersionRow, find_org, find_package, find_version, set_yanked,
}

pub bind_ok :
    {A B : Type 0} (m : ApiResult A) (f : A → ApiResult B) (b : B)
    → (m >>= f) ≡ ok b
    → (a : A) × (m ≡ ok a) × (f a ≡ ok b)
bind_ok (ok a) f b h = (a, refl, h)
bind_ok (err e) f b h = cc

pub query_ok :
    {A : Type 0} (fails : Bool) (found : Option A) (missing : ApiErr) (a : A)
    → query fails found missing ≡ ok a
    → found ≡ some a
query_ok true found missing a h = cc
query_ok false none missing a h = cc
query_ok false (some b) missing a h = cc

-- Every row stays as it was but those with the key, which get the flag and change nothing else.
abbrev pub OnlyFlag : ℕ → Bool → List VersionRow → List VersionRow → Type 0
OnlyFlag id yanked [] [] = Unit
OnlyFlag id yanked (v ∷ vs) (w ∷ ws) =
    (((v.id ≢ id) × (w ≡ v)) ⊎ ((v.id ≡ id) × (w ≡ record v { yanked = yanked })))
    × OnlyFlag id yanked vs ws
OnlyFlag id yanked _ _ = ⊥

pub set_yanked-OnlyFlag :
    (id : ℕ) (yanked : Bool) (vs : List VersionRow)
    → OnlyFlag id yanked vs (set_yanked id yanked vs)
set_yanked-OnlyFlag id yanked [] = tt
set_yanked-OnlyFlag id yanked (v ∷ vs) = elim (Bool-cases (v.id == id)) [
  | inl same ↦ (
    inr ((==_iff v.id id).0 same, ap (λ b. if b then record v { yanked = yanked } else v) same),
    set_yanked-OnlyFlag id yanked vs,
  )
  | inr other ↦ (
    inl (ground arith, ap (λ b. if b then record v { yanked = yanked } else v) other),
    set_yanked-OnlyFlag id yanked vs,
  )
]

pub set_yanked-Mem :
    (id : ℕ) (yanked : Bool) (vs : List VersionRow) (row : VersionRow)
    → Memᴰ row vs
    → row.id ≡ id
    → Memᴰ (record row { yanked = yanked }) (set_yanked id yanked vs)
set_yanked-Mem id yanked [] row m e = elim m [ ]
set_yanked-Mem id yanked (v ∷ vs) row (Memᴰ.head same) e = Memᴰ.head (
    ap (λ (r : VersionRow). record r { yanked = yanked }) same
    ∙ sym (
        ap (λ b. if b then record v { yanked = yanked } else v)
          ((==_iff v.id id).1 (subst (λ (r : VersionRow). r.id ≡ id) same e))))
set_yanked-Mem id yanked (v ∷ vs) row (Memᴰ.tail m) e =
    Memᴰ.tail (set_yanked-Mem id yanked vs row m e)

pub ok-inj : {A : Type 0} {a b : A} → ok a ≡ ok b → a ≡ b
ok-inj e = cc

pub find_org_sound :
    (fails : Bool) (orgs : List OrgRow) (slug : Str) (o : OrgRow)
    → find_org fails orgs slug ≡ ok o
    → Memᴰ o orgs × (o.slug ≡ slug)
unfolding find_org
find_org_sound fails orgs slug o h =
    let (member, same) =
      one_sound (λ (x : OrgRow). str_eq x.slug slug) orgs o (query_ok fails _ _ o h) in
    (member, (str_eq_iff o.slug slug).0 same)

pub find_package_sound :
    (fails : Bool) (packages : List PackageRow) (org_row : OrgRow) (name : Str) (pkg : PackageRow)
    → find_package fails packages org_row name ≡ ok pkg
    → Memᴰ pkg packages × (pkg.org_id ≡ org_row.id) × (pkg.name ≡ name)
unfolding find_package
find_package_sound fails packages org_row name pkg h =
    let (member, both) =
      one_sound (λ (p : PackageRow). p.org_id == org_row.id && str_eq p.name name) packages pkg
        (query_ok fails _ _ pkg h) in
    let (a, b) = &&_parts (pkg.org_id == org_row.id) (str_eq pkg.name name) both in
    (member, (==_iff pkg.org_id org_row.id).0 a, (str_eq_iff pkg.name name).0 b)

pub find_version_sound :
    (fails : Bool) (versions : List VersionRow) (pkg : PackageRow) (ver : Str) (row : VersionRow)
    → find_version fails versions pkg ver ≡ ok row
    → Memᴰ row versions × (row.package_id ≡ pkg.id) × (row.version ≡ ver)
unfolding find_version
find_version_sound fails versions pkg ver row h =
    let (member, both) =
      one_sound (λ (v : VersionRow). v.package_id == pkg.id && str_eq v.version ver) versions row
        (query_ok fails _ _ row h) in
    let (a, b) = &&_parts (row.package_id == pkg.id) (str_eq row.version ver) both in
    (member, (==_iff row.package_id pkg.id).0 a, (str_eq_iff row.version ver).0 b)
