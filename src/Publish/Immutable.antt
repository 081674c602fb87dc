-- ===== src/Publish/Immutable.antt =====
-- src/routes/publish.rs: published versions are immutable.
use mathlib.Core.List.{Memᴰ}
use mathlib.Core.List.Memᴰ
use zed_api_server_rs.Prelude.{
  All, ℕ, Bool, false, ◌||◌, List, [], ◌∷◌, ◌++◌, any, ◌==◌, ◌≡◌, refl, ap, sym, subst, ◌∙◌,
  ||_false, arith,
}
use zed_api_server_rs.Text.{Str, str_eq}
use zed_api_server_rs.Access.{ApiResult}
use zed_api_server_rs.Publish.{
  VersionRow, Database, Storage, Library, Events, PublishRequest, PublishResponse,
}
use zed_api_server_rs.Publish.Checks.{Prepared, is_version}
use zed_api_server_rs.Publish.Release.{Tables, new_version, with_tables, begun, publish}
use zed_api_server_rs.Publish.Steps.{Commits, Outcomes, Handled, release-Outcomes, publish-Handled}

-- No two rows have the same package and version: the unique index.
abbrev pub Unique : List VersionRow → Type 0
Unique [] = Unit
Unique (v ∷ vs) = (any (is_version v.package_id v.version) vs ≡ false) × Unique vs

Unique-left : (xs ys : List VersionRow) → Unique (xs ++ ys) → Unique xs
Unique-left [] ys h = tt
Unique-left (x ∷ xs) ys (p, h) = (any_left _ xs ys p, Unique-left xs ys h)
  where
    any_left :
        (q : VersionRow → Bool) (xs ys : List VersionRow)
        → any q (xs ++ ys) ≡ false
        → any q xs ≡ false
    any_left q [] ys h = refl
    any_left q (x ∷ xs) ys h =
        let (a, b) = ||_false (q x) (any q (xs ++ ys)) h in
        ap (λ c. c || any q xs) a ∙ any_left q xs ys b

eq_symmetric : (a b : ℕ) → (a == b) ≡ (b == a)
eq_symmetric a b = ground arith

str_eq_symmetric : (s t : Str) → str_eq s t ≡ str_eq t s
unfolding str_eq
str_eq_symmetric [] [] = refl
str_eq_symmetric [] (y ∷ t) = refl
str_eq_symmetric (x ∷ s) [] = refl
str_eq_symmetric (x ∷ s) (y ∷ t) = rw (eq_symmetric x y, str_eq_symmetric s t)

twins_symmetric :
    (v w : VersionRow) → is_version v.package_id v.version w ≡ is_version w.package_id w.version v
twins_symmetric v w =
    rw (eq_symmetric w.package_id v.package_id, str_eq_symmetric w.version v.version)

Unique-append :
    (vs : List VersionRow) (new : VersionRow)
    → Unique vs
    → any (is_version new.package_id new.version) vs ≡ false
    → Unique (vs ++ new ∷ [])
Unique-append [] new h k = (refl, tt)
Unique-append (v ∷ vs) new (p, h) k =
    let (a, b) = ||_false (is_version new.package_id new.version v) _ k in
    (
      any_last vs (is_version v.package_id v.version) p (twins_symmetric v new ∙ a),
      Unique-append vs new h b,
    )
  where
    any_last :
        (vs : List VersionRow) (q : VersionRow → Bool)
        → any q vs ≡ false
        → q new ≡ false
        → any q (vs ++ new ∷ []) ≡ false
    any_last [] q h k = ap (λ c. c || false) k
    any_last (w ∷ vs) q h k =
        let (a, b) = ||_false (q w) (any q vs) h in
        ap (λ c. c || any q (vs ++ new ∷ [])) a ∙ any_last vs q b k

-- Every version that was there is there, and no version is there twice.
abbrev pub KeepsVersions : Events → Database → Database → Type 0
KeepsVersions events db after =
    ((row : VersionRow) → Memᴰ row db.versions → Memᴰ row after.versions) × Unique after.versions

module _ (lib : Library) (events : Events) (request : PublishRequest) (p : Prepared) (db : Database)
    (distinct : Unique (db.versions ++ events.other_versions)) where
  committed-Keeps :
      (after : Tables)
      → Commits lib events request p (begun events db) after
      → KeepsVersions events db (with_tables db after)
  committed-Keeps after commits =
      subst (λ vs. ((row : VersionRow) → Memᴰ row db.versions → Memᴰ row vs) × Unique vs)
        (sym commits.versions_are)
        (
          (λ row m.
              Memᴰ.append_left (new_version events request p commits.pkg ∷ [])
                (Memᴰ.append_left events.other_versions m)),
          Unique-append (db.versions ++ events.other_versions)
              (new_version events request p commits.pkg) distinct commits.free,
        )

  Outcomes-Keeps :
      (result : ApiResult PublishResponse × Database)
      → Outcomes lib events request p db result
      → KeepsVersions events db result.1
  Outcomes-Keeps _ (Outcomes.rolled_back e) =
      ((λ row m. Memᴰ.append_left events.other_versions m), distinct)
  Outcomes-Keeps _ (Outcomes.not_adopted e after commits h) = committed-Keeps after commits
  Outcomes-Keeps _ (Outcomes.published after commits h) = committed-Keeps after commits

-- A publication, whatever its answer and whatever other publications commit meanwhile, leaves every
-- version row that was there as it was, and never records a version of a package twice, provided
-- that the rows which are committed before its transaction are distinct in this way.
pub publish-Keeps :
    {S : Type 0} (storage : Storage S) (lib : Library) (events : Events) (request : PublishRequest)
    (db : Database) (store : S)
    → Unique (db.versions ++ events.other_versions)
    → All (λ row. Memᴰ row (publish storage lib events request db store).1.versions) db.versions
      × Unique (publish storage lib events request db store).1.versions
publish-Keeps {S = S} storage lib events request db store distinct =
    let (kept, unique) = keeps in (each db.versions kept, unique)
  where
    each :
        {P : VersionRow → Type 0} (rows : List VersionRow)
        → ((row : VersionRow) → Memᴰ row rows → P row)
        → All P rows
    each [] h = tt
    each (row ∷ rows) h = (h row (Memᴰ.head refl), each rows (λ other m. h other (Memᴰ.tail m)))

    Answer : Type 0
    Answer = ApiResult PublishResponse × Database × S

    unchanged : KeepsVersions events db db
    unchanged = ((λ row m. m), Unique-left db.versions events.other_versions distinct)

    keeps : KeepsVersions events db (publish storage lib events request db store).1
    keeps = elim (publish-Handled storage lib events request db store) [
      | Handled.refused e h same ↦
          subst (λ (r : Answer). KeepsVersions events db r.1) (sym same) unchanged
      | Handled.unstored p e h k same ↦
          subst (λ (r : Answer). KeepsVersions events db r.1) (sym same) unchanged
      | Handled.released p h k same ↦
          subst (λ (r : Answer). KeepsVersions events db r.1) (sym same)
            (Outcomes-Keeps lib events request p db distinct _
              (release-Outcomes lib events request p db))
    ]
