-- ===== src/Yank/Effects.antt =====
-- What the handler of src/routes/yank.rs does to the database, and for whom.
use mathlib.Core.List.{Memᴰ}
use zed_api_server_rs.Prelude.{
  ◌≡◌, refl, sym, ap, subst, ◌∙◌, ◌⊎◌, inl, inr, ◌∷◌, ◌++◌, true, false, none, some, append_assoc,
  Bool,
}
use zed_api_server_rs.Text.{Str, str}
use zed_api_server_rs.Audit.{ChainLibrary, Token, Entry, record_entry}
use zed_api_server_rs.Access.{
  ApiResult, ok, err, ◌>>=◌, bearer_token, parse, can_publish, authorize_publish, cannot_publish,
  require_token,
}
use zed_api_server_rs.Access.Roles.{MayAct, Judged, authorize-Judged, authorize_publish-MayAct}
use zed_api_server_rs.Access.Credentials.{Bears, IsLive, Vetted, require_token-Vetted}
use zed_api_server_rs.Yank.{
  OrgRow, PackageRow, VersionRow, Database, Faults, YankRequest, YankResponse, find_org,
  find_package, find_version, set_yanked, run_update, action, audit_entry, admitted, yank,
}
use zed_api_server_rs.Yank.Lookups.{
  OnlyFlag, bind_ok, set_yanked-OnlyFlag, set_yanked-Mem, ok-inj, find_org_sound,
  find_package_sound, find_version_sound,
}

module _ (hash_token : Str → Str) (lib : ChainLibrary) where
  -- What an admitted request has shown.
  pub record Admitted (db : Database) (request : YankRequest) (token : Token) (org_row : OrgRow)
      (row : VersionRow) : Type 0 where
    pub plaintext : Str
    pub presented : bearer_token request.authorization ≡ some plaintext
    pub borne : Bears request.authorization plaintext
    pub known : Memᴰ token db.tokens
    pub hashed : token.token_hash ≡ hash_token plaintext
    pub live : IsLive request.now token
    pub org_known : Memᴰ org_row db.orgs
    pub org_named : org_row.slug ≡ request.org_slug
    pub may : MayAct can_publish token.org_id (parse token.role) org_row.id
    pub pkg : PackageRow
    pub pkg_known : Memᴰ pkg db.packages
    pub pkg_owned : pkg.org_id ≡ org_row.id
    pub pkg_named : pkg.name ≡ request.name
    pub row_known : Memᴰ row db.versions
    pub row_owned : row.package_id ≡ pkg.id
    pub row_named : row.version ≡ request.version

  admitted_lem :
      (faults : Faults) (db : Database) (request : YankRequest)
      → admitted hash_token lib faults db request ≡ (
          require_token hash_token request.now faults.find_token db.tokens request.authorization
          >>= (λ token. find_org faults.find_org db.orgs request.org_slug >>= (λ org_row.
              authorize_publish token.org_id (parse token.role) org_row.id >>= (λ authorized.
                find_package faults.find_package db.packages org_row request.name >>= (λ pkg.
                  find_version faults.find_version db.versions pkg request.version >>= (λ row.
                    run_update faults.update >>= (λ updated. ok (token, org_row, row))))))))
  unfolding admitted
  admitted_lem faults db request = refl

  admitted_sound :
      (faults : Faults) (db : Database) (request : YankRequest)
      (found : Token × OrgRow × VersionRow)
      → admitted hash_token lib faults db request ≡ ok found
      → Admitted db request found.0 found.1 found.2
  admitted_sound faults db request found h =
      let (token, e1, h1) = bind_ok _ _ found (sym (admitted_lem faults db request) ∙ h) in
      let (org_row, e2, h2) = bind_ok _ _ found h1 in
      let (authorized, e3, h3) = bind_ok _ _ found h2 in
      let (pkg, e4, h4) = bind_ok _ _ found h3 in
      let (row, e5, h5) = bind_ok _ _ found h4 in
      let (updated, e6, h6) =
        bind_ok (run_update faults.update) (λ updated. ok (token, org_row, row)) found h5 in
      let (plaintext, presented, borne, known, hashed, live) =
        subst (Vetted hash_token request.now faults.find_token db.tokens request.authorization) e1 (
          require_token-Vetted hash_token request.now faults.find_token db.tokens
            request.authorization) in
      let (org_known, org_named) =
        find_org_sound faults.find_org db.orgs request.org_slug org_row e2 in
      let may =
        subst (Judged can_publish cannot_publish token.org_id (parse token.role) org_row.id) e3
          (authorize-Judged token.org_id (parse token.role) org_row.id).0 in
      let (pkg_known, pkg_owned, pkg_named) =
        find_package_sound faults.find_package db.packages org_row request.name pkg e4 in
      let (row_known, row_owned, row_named) =
        find_version_sound faults.find_version db.versions pkg request.version row e5 in
      subst (λ (f : Token × OrgRow × VersionRow). Admitted db request f.0 f.1 f.2) (ok-inj h6)
        (record {
          plaintext = plaintext;
          presented = presented;
          borne = borne;
          known = known;
          hashed = hashed;
          live = live;
          org_known = org_known;
          org_named = org_named;
          may = may;
          pkg = pkg;
          pkg_known = pkg_known;
          pkg_owned = pkg_owned;
          pkg_named = pkg_named;
          row_known = row_known;
          row_owned = row_owned;
          row_named = row_named;
        })

  yank_lem :
      (faults : Faults) (db : Database) (request : YankRequest)
      → yank hash_token lib faults db request ≡ (elim (admitted hash_token lib faults db request) [
        | err e ↦ (err e, db)
        | ok found ↦ (
          ok (record {
            org = request.org_slug;
            name = request.name;
            version = request.version;
            yanked = request.yanked;
          }),
          record db {
            versions = set_yanked found.2.id request.yanked db.versions;
            audit_log =
                (record_entry lib request.attempts db.audit_log
                  (audit_entry hash_token lib request found.0 found.1)).0;
          },
        )
      ])
  unfolding yank
  yank_lem faults db request = refl

  -- The audit record of the change: whose it is, who made it, and what was asked for, of what.
  pub record IsRecordOf (request : YankRequest) (token : Token) (org_row : OrgRow) (entry : Entry)
      : Type 0 where
    pub own : entry.org_id ≡ org_row.id
    pub by : entry.token ≡ token
    pub done :
        ((request.yanked ≡ true) × (entry.action ≡ str "yank"))
        ⊎ ((request.yanked ≡ false) × (entry.action ≡ str "unyank"))
    pub of : entry.subject ≡ request.org_slug ++ b'/' ∷ (request.name ++ b'@' ∷ request.version)
    pub bare : entry.detail ≡ none
    pub at : entry.now ≡ request.now

  audit_entry-IsRecordOf :
      (request : YankRequest) (token : Token) (org_row : OrgRow)
      → IsRecordOf request token org_row (audit_entry hash_token lib request token org_row)
  unfolding str
  audit_entry-IsRecordOf request token org_row = record {
    own = refl;
    by = refl;
    done = named request.yanked;
    of =
        append_assoc (request.org_slug ++ str "/" ++ request.name) (str "@") request.version
        ∙ append_assoc (request.org_slug ++ str "/") request.name (b'@' ∷ request.version)
        ∙ append_assoc request.org_slug (str "/") (request.name ++ b'@' ∷ request.version);
    bare = refl;
    at = refl;
  }
    where
      named :
          (yanked : Bool)
          → ((yanked ≡ true) × (action yanked ≡ str "yank"))
            ⊎ ((yanked ≡ false) × (action yanked ≡ str "unyank"))
      named true = inl (refl, refl)
      named false = inr (refl, refl)

  -- What the answer to a request says of the database before and after it.
  abbrev pub Effect : Database → YankRequest → ApiResult YankResponse × Database → Type 0
  Effect db request (err e, after) = after ≡ db
  Effect db request (ok response, after) =
      (token : Token) × (org_row : OrgRow) × (row : VersionRow) × Admitted db request token org_row
        row
      × (response.org ≡ request.org_slug)
      × (response.name ≡ request.name)
      × (response.version ≡ request.version)
      × (response.yanked ≡ request.yanked)
      × OnlyFlag row.id request.yanked db.versions after.versions
      × (entry : Entry) × IsRecordOf request token org_row entry
      × (after.audit_log ≡ (record_entry lib request.attempts db.audit_log entry).0)
      × (after ≡ record db { versions = after.versions; audit_log = after.audit_log })

  -- A request to withdraw or restore a version that is refused, for whatever reason, changes nothing.
  -- One that is answered was made with a live stored token that may publish for the organisation of
  -- that name, and the version is one of that organisation's package; only the flag of rows with that
  -- version's key changes, to what was asked for, and a record of the change that names the token, the
  -- action and the version goes to that organisation's audit log, as far as the log takes it.
  pub yank-Effect :
      (faults : Faults) (db : Database) (request : YankRequest)
      → Effect db request (yank hash_token lib faults db request)
  yank-Effect faults db request =
      rw (yank_lem faults db request) (by_result (admitted hash_token lib faults db request) refl)
    where
      by_result :
          (r : ApiResult (Token × OrgRow × VersionRow))
          → admitted hash_token lib faults db request ≡ r
          → Effect db request (elim r [
            | err e ↦ (err e, db)
            | ok found ↦ (
              ok (record {
                org = request.org_slug;
                name = request.name;
                version = request.version;
                yanked = request.yanked;
              }),
              record db {
                versions = set_yanked found.2.id request.yanked db.versions;
                audit_log =
                    (record_entry lib request.attempts db.audit_log
                      (audit_entry hash_token lib request found.0 found.1)).0;
              },
            )
          ])
      by_result (err e) h = refl
      by_result (ok found) h = (
        found.0,
        found.1,
        found.2,
        admitted_sound faults db request found h,
        refl,
        refl,
        refl,
        refl,
        set_yanked-OnlyFlag found.2.id request.yanked db.versions,
        audit_entry hash_token lib request found.0 found.1,
        audit_entry-IsRecordOf request found.0 found.1,
        refl,
        refl,
      )

  -- Where the database does not fail, every request with an accepted token that may publish for the
  -- organisation, and that names a package of it and a version of that package, is answered, and the
  -- version then has the flag that was asked for.
  pub yank-answers :
      (faults : Faults) (db : Database) (request : YankRequest) (token : Token) (org_row : OrgRow)
      (pkg : PackageRow) (row : VersionRow)
      → require_token hash_token request.now faults.find_token db.tokens request.authorization
        ≡ ok token
      → find_org faults.find_org db.orgs request.org_slug ≡ ok org_row
      → MayAct can_publish token.org_id (parse token.role) org_row.id
      → find_package faults.find_package db.packages org_row request.name ≡ ok pkg
      → find_version faults.find_version db.versions pkg request.version ≡ ok row
      → faults.update ≡ false
      → ((yank hash_token lib faults db request).0
          ≡ ok (record {
            org = request.org_slug;
            name = request.name;
            version = request.version;
            yanked = request.yanked;
          }))
        × Memᴰ
            (record row { yanked = request.yanked })
            (yank hash_token lib faults db request).1.versions
  yank-answers faults db request token org_row pkg row e1 e2 may e3 e4 e5 =
      let e : admitted hash_token lib faults db request ≡ ok (token, org_row, row) =
        admitted_lem faults db request
        ∙ rw
            (
              e1,
              e2,
              authorize_publish-MayAct token.org_id (parse token.role) org_row.id may,
              e3,
              e4,
              e5,
            )
            refl in
      rw
        (yank_lem faults db request
          ∙ ap
              (λ r. elim r [
                | err e' ↦ (err e', db)
                | ok found ↦ (
                  ok (record {
                    org = request.org_slug;
                    name = request.name;
                    version = request.version;
                    yanked = request.yanked;
                  }),
                  record db {
                    versions = set_yanked found.2.id request.yanked db.versions;
                    audit_log =
                        (record_entry lib request.attempts db.audit_log
                          (audit_entry hash_token lib request found.0 found.1)).0;
                  },
                )
              ])
              e)
        (
          refl,
          set_yanked-Mem row.id request.yanked db.versions row
              (find_version_sound faults.find_version db.versions pkg request.version row e4).0
              refl,
        )
