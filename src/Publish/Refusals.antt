-- ===== src/Publish/Refusals.antt =====
-- src/routes/publish.rs: what a refused publication leaves behind.
use zed_api_server_rs.Prelude.{◌≡◌, ap, sym, subst, ◌∙◌}
use zed_api_server_rs.Access.{ApiErr, ApiResult, ok, err}
use zed_api_server_rs.Publish.{Database, Storage, Library, Events, PublishRequest, PublishResponse}
use zed_api_server_rs.Publish.Checks.{Prepared}
use zed_api_server_rs.Publish.Release.{Tables, with_tables, begun, adopt, publish}
use zed_api_server_rs.Publish.Steps.{Commits, Outcomes, release-Outcomes, Handled, publish-Handled}

module _ (lib : Library) (events : Events) (request : PublishRequest) (db : Database) where
  -- Nothing but what others have committed; or the version is committed and the canonical plane has
  -- refused it, which is the answer.
  pub data Refused (e : ApiErr) : Database → Type 0 where
    untouched : Refused e db
    rolled_back : Refused e (with_tables db (begun events db))
    not_adopted :
        (p : Prepared) (after : Tables)
        → Commits lib events request p (begun events db) after
        → adopt lib events request p ≡ err e
        → Refused e (with_tables db after)

  err_inj : {e o : ApiErr} → ◌≡◌ {A = ApiResult PublishResponse} (err e) (err o) → e ≡ o
  err_inj h = cc

  Outcomes-Refused :
      (p : Prepared) (result : ApiResult PublishResponse × Database) (e : ApiErr)
      → Outcomes lib events request p db result
      → result.0 ≡ err e
      → Refused e result.1
  Outcomes-Refused p _ e (Outcomes.rolled_back o) h = rolled_back
  Outcomes-Refused p _ e (Outcomes.not_adopted o after commits k) h =
      not_adopted p after commits (k ∙ ap err (err_inj h))
  Outcomes-Refused p _ e (Outcomes.published after commits k) h = never h
    where
      never : {B : Type 0} {r : PublishResponse} → ok r ≡ err e → B
      never x = cc

-- A publication that is answered with an error has changed no package, no version and no audit record;
-- what others committed meanwhile stands. The one exception is an error of the canonical plane
-- after the commit: the version is recorded, and that error is the answer.
pub publish-Refused :
    {S : Type 0} (storage : Storage S) (lib : Library) (events : Events) (request : PublishRequest)
    (db : Database) (store : S) (e : ApiErr)
    → (publish storage lib events request db store).0 ≡ err e
    → Refused lib events request db e (publish storage lib events request db store).1
publish-Refused {S = S} storage lib events request db store e h =
    elim (publish-Handled storage lib events request db store) [
      | Handled.refused o k same ↦
          subst (λ (r : Answer). Refused lib events request db e r.1) (sym same) Refused.untouched
      | Handled.unstored p o k l same ↦
          subst (λ (r : Answer). Refused lib events request db e r.1) (sym same) Refused.untouched
      | Handled.released p k l same ↦
          subst (λ (r : Answer). Refused lib events request db e r.1) (sym same)
            (Outcomes-Refused lib events request db p _ e (release-Outcomes lib events request p db)
              (sym (ap (λ (r : Answer). r.0) same) ∙ h))
    ]
  where
    Answer : Type 0
    Answer = ApiResult PublishResponse × Database × S
