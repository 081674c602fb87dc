-- ===== src/Publish/Vetting.antt =====
-- src/routes/publish.rs: what a publication that passes the checks has shown.
use mathlib.Core.List.{Memᴰ}
use zed_api_server_rs.Prelude.{
  ℕ, Bool, true, false, Option, none, some, length, ◌==◌, ==_iff, &&_parts, ◌≡◌, refl, sym, subst,
  ◌∙◌,
}
use zed_api_server_rs.Text.{Str, str, str_eq}
use zed_api_server_rs.Text.Equality.{str_eq_iff}
use zed_api_server_rs.Audit.{Token}
use zed_api_server_rs.Access.{
  ApiErr, ApiResult, ok, err, ◌>>=◌, parse, can_publish, cannot_publish, authorize_publish, one,
  query, require_token,
}
use zed_api_server_rs.Access.Roles.{MayAct, Judged, authorize-Judged}
use zed_api_server_rs.Access.Credentials.{Vetted, require_token-Vetted, one_sound}
use zed_api_server_rs.Yank.{OrgRow}
use zed_api_server_rs.Yank.Lookups.{bind_ok, query_ok, ok-inj}
use zed_api_server_rs.ArtifactStore.{Blob}
use zed_api_server_rs.ArtifactStore.Keys.{artifact_key}
use zed_api_server_rs.Publish.{Database, PublishMeta, Library, Events, PublishRequest}
use zed_api_server_rs.Publish.Multipart.{read_multipart}
use zed_api_server_rs.Publish.Form.{IsForm, read_multipart-IsForm}
use zed_api_server_rs.Publish.Checks.{
  org_not_found, authorized, ensure, no_error, names_match, validated, published_time, signed,
  attestation, encoded, immutable, Prepared, assemble, prepared,
}

module _ (lib : Library) (events : Events) (db : Database) (request : PublishRequest) where
  -- The request's own credential and form: a stored token that is good and may publish for the
  -- organisation of the path, and an artifact that is what the metadata and the path say.
  pub record Shown (p : Prepared) : Type 0 where
    pub vetted :
        Vetted lib.hash_token request.now events.find_token_fails db.tokens request.authorization
          (ok p.token)
    pub sent :
        IsForm lib.meta_field lib.artifact_field lib.parse_meta request.parts p.meta p.artifact
    pub org_known : Memᴰ p.org_row db.orgs
    pub org_named : p.org_row.slug ≡ request.org_slug
    pub may : MayAct can_publish p.token.org_id (parse p.token.role) p.org_row.id
    pub named_org : p.meta.pkg.org ≡ request.org_slug
    pub named_package : p.meta.pkg.name ≡ request.name
    pub named_version : p.meta.pkg.version ≡ request.version
    pub digest_declared : lib.sha256_hex p.artifact ≡ p.meta.sha256
    pub size_declared : length p.artifact ≡ p.meta.size
    pub digest_is : p.actual_sha ≡ lib.sha256_hex p.artifact
    pub key_is : p.key ≡ artifact_key (lib.sha256_hex p.artifact) p.meta.format.extension
    pub attested :
        signed lib events db p.org_row p.meta
          (attestation lib request p.meta p.artifact p.published_at)
        ≡ ok tt

  ensure_then :
      (b : Bool) (e : ApiErr) (r : ApiResult Unit) (u : Unit)
      → (ensure b e >>= (λ t. r)) ≡ ok u
      → (b ≡ true) × (r ≡ ok u)
  ensure_then true e r u h = (refl, h)
  ensure_then false e r u h = cc

  no_error_then :
      (code : Str) (o : Option Str) (r : ApiResult Unit) (u : Unit)
      → (no_error code o >>= (λ t. r)) ≡ ok u
      → r ≡ ok u
  no_error_then code none r u h = h
  no_error_then code (some message) r u h = cc

  authorized_lem : authorized lib events db request ≡ (do
    token ←
        require_token lib.hash_token request.now events.find_token_fails db.tokens
          request.authorization
    org_row ←
        query events.find_org_fails
          (one (λ o. str_eq o.slug request.org_slug) db.orgs)
          (org_not_found request.org_slug)
    allowed ← authorize_publish token.org_id (parse token.role) org_row.id
    ok (token, org_row))
  unfolding authorized
  authorized_lem = refl

  authorized_sound :
      (who : Token × OrgRow)
      → authorized lib events db request ≡ ok who
      → Vetted lib.hash_token request.now events.find_token_fails db.tokens request.authorization
          (ok who.0)
        × Memᴰ who.1 db.orgs
        × (who.1.slug ≡ request.org_slug)
        × MayAct can_publish who.0.org_id (parse who.0.role) who.1.id
  authorized_sound who h =
      let (token, e1, h1) = bind_ok _ _ who (sym authorized_lem ∙ h) in
      let (org_row, e2, h2) = bind_ok _ _ who h1 in
      let (allowed, e3, h3) =
        bind_ok (authorize_publish token.org_id (parse token.role) org_row.id)
          (λ allowed. ok (token, org_row)) who h2 in
      let vetted =
        subst
          (Vetted lib.hash_token request.now events.find_token_fails db.tokens
            request.authorization)
          e1
          (require_token-Vetted lib.hash_token request.now events.find_token_fails db.tokens
            request.authorization) in
      let (org_known, named) =
        one_sound (λ o. str_eq o.slug request.org_slug) db.orgs org_row
          (query_ok events.find_org_fails _ (org_not_found request.org_slug) org_row e2) in
      let may =
        subst (Judged can_publish cannot_publish token.org_id (parse token.role) org_row.id) e3
          (authorize-Judged token.org_id (parse token.role) org_row.id).0 in
      subst
        (λ (w : Token × OrgRow).
          Vetted lib.hash_token request.now events.find_token_fails db.tokens request.authorization
            (ok w.0)
          × Memᴰ w.1 db.orgs
          × (w.1.slug ≡ request.org_slug)
          × MayAct can_publish w.0.org_id (parse w.0.role) w.1.id)
        (ok-inj h3) (vetted, org_known, (str_eq_iff org_row.slug request.org_slug).0 named, may)

  validated_lem :
      (meta : PublishMeta) (artifact : Blob)
      → (e1 : ApiErr) × (e2 : ApiErr) × (e3 : ApiErr) × (rest : ApiResult Unit) × (validated lib
            request meta artifact
          ≡ (do
            manifest ← no_error (str "invalid_manifest") (lib.validate meta)
            named ← ensure (names_match meta.pkg request) e1
            digest ← ensure (str_eq (lib.sha256_hex artifact) meta.sha256) e2
            size ← ensure (length artifact == meta.size) e3
            rest))
  unfolding validated
  validated_lem meta artifact = (_, _, _, _, refl)

  validated_sound :
      (meta : PublishMeta) (artifact : Blob) (u : Unit)
      → validated lib request meta artifact ≡ ok u
      → (names_match meta.pkg request ≡ true)
        × (lib.sha256_hex artifact ≡ meta.sha256)
        × (length artifact ≡ meta.size)
  validated_sound meta artifact u h =
      let (e1, e2, e3, rest, lem) = validated_lem meta artifact in
      let h1 = no_error_then (str "invalid_manifest") (lib.validate meta) _ u (sym lem ∙ h) in
      let (k2, h2) = ensure_then (names_match meta.pkg request) e1 _ u h1 in
      let (k3, h3) = ensure_then (str_eq (lib.sha256_hex artifact) meta.sha256) e2 _ u h2 in
      let (k4, h4) = ensure_then (length artifact == meta.size) e3 rest u h3 in
      (
        k2,
        (str_eq_iff (lib.sha256_hex artifact) meta.sha256).0 k3,
        (==_iff (length artifact) meta.size).0 k4,
      )

  names_parts :
      (meta : PublishMeta)
      → names_match meta.pkg request ≡ true
      → (meta.pkg.org ≡ request.org_slug)
        × (meta.pkg.name ≡ request.name)
        × (meta.pkg.version ≡ request.version)
  unfolding names_match
  names_parts meta h =
      let (a, rest) = &&_parts (str_eq meta.pkg.org request.org_slug) _ h in
      let (b, c) = &&_parts (str_eq meta.pkg.name request.name) _ rest in
      ((str_eq_iff _ _).0 a, (str_eq_iff _ _).0 b, (str_eq_iff _ _).0 c)

  prepared_lem : prepared lib events db request ≡ (do
    who ← authorized lib events db request
    form ← read_multipart lib.meta_field lib.artifact_field lib.parse_meta request.parts
    valid ← validated lib request form.0 form.1
    published_at ← published_time lib request.now form.0.published_at
    attested ←
        signed lib events db who.1 form.0 (attestation lib request form.0 form.1 published_at)
    stored_mirrors ←
        encoded (str "invalid_mirrors") (str "mirror") (lib.encode_mirrors form.0.mirrors)
    stored_signatures ←
        encoded
          (str "invalid_signature")
          (str "signature")
          (lib.encode_signatures form.0.signatures)
    fresh ←
        immutable lib events db request who.1 form.0
          (lib.sha256_hex form.1)
          (length form.1)
          (artifact_key (lib.sha256_hex form.1) form.0.format.extension)
    ok (assemble lib who form published_at stored_mirrors stored_signatures))
  unfolding prepared
  prepared_lem = refl

  assemble-Shown :
      (who : Token × OrgRow) (form : PublishMeta × Blob) (published_at : ℕ)
      (mirrors signatures : Str) (u t : Unit)
      → authorized lib events db request ≡ ok who
      → IsForm lib.meta_field lib.artifact_field lib.parse_meta request.parts form.0 form.1
      → validated lib request form.0 form.1 ≡ ok u
      → signed lib events db who.1 form.0 (attestation lib request form.0 form.1 published_at)
        ≡ ok t
      → Shown (assemble lib who form published_at mirrors signatures)
  unfolding assemble
  assemble-Shown who form published_at mirrors signatures u t e1 sent e2 e3 =
      let (vetted, org_known, org_named, may) = authorized_sound who e1 in
      let (named, digest, size) = validated_sound form.0 form.1 u e2 in
      let (named_org, named_package, named_version) = names_parts form.0 named in
      record {
        vetted = vetted;
        sent = sent;
        org_known = org_known;
        org_named = org_named;
        may = may;
        named_org = named_org;
        named_package = named_package;
        named_version = named_version;
        digest_declared = digest;
        size_declared = size;
        digest_is = refl;
        key_is = refl;
        attested = e3;
      }

  unit_then :
      {A : Type 0} (m : ApiResult Unit) (r : ApiResult A) (a : A)
      → (m >>= (λ u. r)) ≡ ok a
      → (m ≡ ok tt) × (r ≡ ok a)
  unit_then (ok u) r a h = (refl, h)
  unit_then (err e) r a h = cc

  pub prepared-Shown : (p : Prepared) → prepared lib events db request ≡ ok p → Shown p
  prepared-Shown p h =
      let (who, e1, h1) = bind_ok _ _ p (sym prepared_lem ∙ h) in
      let (form, e2, h2) =
        bind_ok (read_multipart lib.meta_field lib.artifact_field lib.parse_meta request.parts) _ p
          h1 in
      let (e3, h3) = unit_then (validated lib request form.0 form.1) _ p h2 in
      let (published_at, e4, h4) =
        bind_ok (published_time lib request.now form.0.published_at) _ p h3 in
      let (e5, h5) =
        unit_then
          (signed lib events db who.1 form.0 (attestation lib request form.0 form.1 published_at)) _
          p h4 in
      let (mirrors, e6, h6) =
        bind_ok (encoded (str "invalid_mirrors") (str "mirror") (lib.encode_mirrors form.0.mirrors))
          _ p h5 in
      let (signatures, e7, h7) =
        bind_ok
          (encoded (str "invalid_signature") (str "signature")
            (lib.encode_signatures form.0.signatures))
          _ p h6 in
      let (e8, h8) =
        unit_then
          (immutable lib events db request who.1 form.0 (lib.sha256_hex form.1) (length form.1)
            (artifact_key (lib.sha256_hex form.1) form.0.format.extension))
          (ok (assemble lib who form published_at mirrors signatures)) p h7 in
      subst Shown (ok-inj h8) (
        assemble-Shown who form published_at mirrors signatures tt tt e1
          (read_multipart-IsForm lib.meta_field lib.artifact_field lib.parse_meta request.parts form
            e2)
          e3 e5)
