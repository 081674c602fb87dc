-- ===== src/Publish/Commits.antt =====
-- src/routes/publish.rs: what a publication that succeeds has done.
use mathlib.Core.List.{Memᴰ}
use mathlib.Core.List.Memᴰ
use zed_api_server_rs.Prelude.{◌++◌, ◌≡◌, refl, ap, sym, subst, ◌∙◌}
use zed_api_server_rs.Access.{ApiErr, ApiResult, ok, err}
use zed_api_server_rs.Publish.{Database, Storage, Library, Events, PublishRequest, PublishResponse}
use zed_api_server_rs.Publish.Checks.{Prepared}
use zed_api_server_rs.Publish.Release.{Tables, new_version, begun, adopt, publish}
use zed_api_server_rs.Publish.Steps.{Commits, Outcomes, release-Outcomes, Handled, publish-Handled}
use zed_api_server_rs.Publish.Vetting.{Shown, prepared-Shown}

module _ (lib : Library) (events : Events) (request : PublishRequest) (db : Database) where
  -- The checks have held, one version is recorded under a free name, the canonical plane has it too,
  -- and the answer names it by the digest that the client declared.
  pub record Published (response : PublishResponse) (after : Database) : Type 0 where
    pub p : Prepared
    pub shown : Shown lib events db request p
    pub tables : Tables
    pub commits : Commits lib events request p (begun events db) tables
    pub versions_are : after.versions ≡ tables.versions
    pub packages_are : after.packages ≡ tables.packages
    pub adopted : adopt lib events request p ≡ ok tt
    pub answers : response.sha256 ≡ p.meta.sha256
    pub recorded : Memᴰ (new_version events request p commits.pkg) after.versions

  ok_inj : {a b : PublishResponse} → ◌≡◌ {A = ApiResult PublishResponse} (ok a) (ok b) → a ≡ b
  ok_inj h = cc

  not_ok :
      {B : Type 0} {e : ApiErr} {a : PublishResponse}
      → ◌≡◌ {A = ApiResult PublishResponse} (err e) (ok a)
      → B
  not_ok h = cc

  Outcomes-Published :
      (q : Prepared) (result : ApiResult PublishResponse × Database) (response : PublishResponse)
      → Shown lib events db request q
      → Outcomes lib events request q db result
      → result.0 ≡ ok response
      → Published response result.1
  Outcomes-Published q _ response shown (Outcomes.rolled_back o) h = not_ok h
  Outcomes-Published q _ response shown (Outcomes.not_adopted o after commits k) h = not_ok h
  Outcomes-Published q _ response shown (Outcomes.published after commits k) h = record {
    p = q;
    shown = shown;
    tables = after;
    commits = commits;
    versions_are = refl;
    packages_are = refl;
    adopted = k;
    answers =
        sym (ap (λ (r : PublishResponse). r.sha256) (ok_inj h))
        ∙ shown.digest_is
        ∙ shown.digest_declared;
    recorded =
        subst (Memᴰ (new_version events request q commits.pkg)) (sym commits.versions_are)
          (Memᴰ.append_right (db.versions ++ events.other_versions) (Memᴰ.head refl));
  }

-- A publication that succeeds was made with the request's bearer credential: a stored token has its
-- hash, is neither revoked nor expired, and may publish for the organisation of the path. The form
-- held the metadata and the artifact, each once and nothing else; the manifest names the path, and
-- the bytes have the declared digest and size. The version is recorded once, under a name that was
-- free, and the answer has the declared digest.
pub publish-Published :
    {S : Type 0} (storage : Storage S) (lib : Library) (events : Events) (request : PublishRequest)
    (db : Database) (store : S) (response : PublishResponse)
    → (publish storage lib events request db store).0 ≡ ok response
    → Published lib events request db response (publish storage lib events request db store).1
publish-Published {S = S} storage lib events request db store response h =
    elim (publish-Handled storage lib events request db store) [
      | Handled.refused o k same ↦
          not_ok lib events request db (sym (ap (λ (r : Answer). r.0) same) ∙ h)
      | Handled.unstored p o k l same ↦
          not_ok lib events request db (sym (ap (λ (r : Answer). r.0) same) ∙ h)
      | Handled.released p k l same ↦
          subst (λ (r : Answer). Published lib events request db response r.1) (sym same)
            (Outcomes-Published lib events request db p _ response
              (prepared-Shown lib events db request p k) (release-Outcomes lib events request p db)
              (sym (ap (λ (r : Answer). r.0) same) ∙ h))
    ]
  where
    Answer : Type 0
    Answer = ApiResult PublishResponse × Database × S
