-- ===== src/EdgeFallback/Capabilities.antt =====
-- What a capability of src/edge_fallback.rs allows, and to whom it is issued.
use zed_api_server_rs.Prelude.{
  ◌⊎◌, ℕ, ◌+◌, ◌≤◌, ◌<◌, Bool, true, false, not, ◌&&◌, ◌||◌, Option, none, some, [], ◌∷◌, ◌++◌,
  if◌then◌else◌, ◌==◌, ltb, any, ◌≡◌, ◌^◌, &&_parts, subst, refl, sym, ap, ◌∙◌, inl, inr,
  Bool-cases, arith, Option-cases,
}
use zed_api_server_rs.Text.Search.{starts_with_parts}
use zed_api_server_rs.Text.{starts_with, Str, str, trim, split_once_char, trim_end_matches}
use zed_api_server_rs.ArtifactStore.{checked_add}
use zed_api_server_rs.Verify.{
  trim_end_matches_str, parse_github, owner_and_repo, valid_repo_segment, github_path,
}
use zed_api_server_rs.EdgeFallback.{
  EdgeCapabilityPrincipal, EdgeFallbackGrant, EdgeFallbackCapability, EdgeCapabilityIssueError,
  IssueResult, invalid_lifetime, issued, refused, read, and_then, ok_or, accept, is_approved,
  resource_name, canonical_github_resource, github_grant, github_grant_for_package,
  build_github_capability,
}

-- What an `if` is once its test is known.
else_of : {A : Type 0} (b : Bool) (x y r : A) → b ≡ false → (if b then x else y) ≡ r → y ≡ r
else_of b x y r e h = sym (ap (λ t. if t then x else y) e) ∙ h

then_of : {A : Type 0} (b : Bool) (x y r : A) → b ≡ true → (if b then x else y) ≡ r → x ≡ r
then_of b x y r e h = sym (ap (λ t. if t then x else y) e) ∙ h

issue_ok :
    {A B : Type 0} (m : IssueResult A) (f : A → IssueResult B) (b : B)
    → and_then m f ≡ issued b
    → (a : A) × (m ≡ issued a) × (f a ≡ issued b)
issue_ok (issued a) f b h = (a, refl, h)
issue_ok (refused e) f b h = cc

ok_or-some :
    {A : Type 0} (o : Option A) (e : EdgeCapabilityIssueError) (a : A)
    → ok_or o e ≡ issued a
    → o ≡ some a
ok_or-some none e a h = cc
ok_or-some (some b) e a h = cc

accepted :
    (o : Option Str) (capability result : EdgeFallbackCapability)
    → accept o capability ≡ issued result
    → (o ≡ none) × (capability ≡ result)
accepted none capability result h = (refl, cc)
accepted (some message) capability result h = cc

checked_add-some : (a b r : ℕ) → checked_add a b ≡ some r → (r ≡ a + b) × (r < 2 ^ 64)
unfolding checked_add
checked_add-some a b r h = ground arith

-- The two names that `owner_and_repo` answers have passed its test.
both_valid :
    (a : Bool) (x y owner repo : Str)
    → ◌≡◌ {A = Option (Str × Str)}
        (if a && (valid_repo_segment x && valid_repo_segment y) then some (x, y) else none)
        (some (owner, repo))
    → (valid_repo_segment owner ≡ true) × (valid_repo_segment repo ≡ true)
both_valid a x y owner repo h =
    elim (Bool-cases (a && (valid_repo_segment x && valid_repo_segment y))) [
      | inr e ↦
          let impossible : ◌≡◌ {A = Option (Str × Str)} none (some (owner, repo)) =
            else_of (a && (valid_repo_segment x && valid_repo_segment y)) (some (x, y)) none _ e
              h in
          cc
      | inl e ↦
          let same : ◌≡◌ {A = Option (Str × Str)} (some (x, y)) (some (owner, repo)) =
            then_of (a && (valid_repo_segment x && valid_repo_segment y)) (some (x, y)) none _ e
              h in
          let same_owner : x ≡ owner = cc in
          let same_repo : y ≡ repo = cc in
          let parts =
            &&_parts (valid_repo_segment x) (valid_repo_segment y)
              (&&_parts a (valid_repo_segment x && valid_repo_segment y) e).1 in
          (
            subst (λ t. valid_repo_segment t ≡ true) same_owner parts.0,
            subst (λ t. valid_repo_segment t ≡ true) same_repo parts.1,
          )
    ]

owner_and_repo-valid :
    (rest owner repo : Str)
    → owner_and_repo rest ≡ some (owner, repo)
    → (valid_repo_segment owner ≡ true) × (valid_repo_segment repo ≡ true)
unfolding owner_and_repo
owner_and_repo-valid rest owner repo h = elim (Option-cases (split_once_char rest b'/')) [
  | inl e ↦ cc
  | inr ((x, y), e) ↦ both_valid (not (any (λ c. c == b'/') y)) x y owner repo (
      sym (
        ap
          (λ (o : Option (Str × Str)). elim o [
            | none ↦ none
            | some (a, b) ↦
                if not (any (λ c. c == b'/') b) && (valid_repo_segment a && valid_repo_segment b)
                then some (a, b)
                else none
          ])
          e)
      ∙ h)
]

parse_github-valid :
    (url owner repo : Str)
    → parse_github url ≡ some (owner, repo)
    → (valid_repo_segment owner ≡ true) × (valid_repo_segment repo ≡ true)
unfolding parse_github
parse_github-valid url owner repo h = elim (Option-cases (github_path url)) [
  | inl e ↦ cc
  | inr (rest, e) ↦
      owner_and_repo-valid
        (trim_end_matches_str (str ".git") (trim_end_matches (λ c. c == b'/') rest)) owner repo
        (sym (
            ap
              (λ (o : Option Str). elim o [
                | none ↦ none
                | some path ↦
                    owner_and_repo
                      (trim_end_matches_str (str ".git") (trim_end_matches (λ c. c == b'/') path))
              ])
              e)
          ∙ h)
]

resource_name-some :
    (o : Option (Str × Str)) (resource : Str)
    → resource_name o ≡ some resource
    → (owner repo : Str) × (o ≡ some (owner, repo)) × (resource ≡ owner ++ b'/' ∷ repo)
resource_name-some none resource h = cc
resource_name-some (some (owner, repo)) resource h = (owner, repo, refl, cc)

canonical_github_resource_ok :
    (url resource : Str)
    → canonical_github_resource url ≡ some resource
    → (is_approved (trim url) ≡ true)
      × (owner repo : Str) × (parse_github (trim url) ≡ some (owner, repo))
      × (resource ≡ owner ++ b'/' ∷ repo)
unfolding canonical_github_resource
canonical_github_resource_ok url resource h = elim (Bool-cases (is_approved (trim url))) [
  | inr e ↦ cc
  | inl e ↦
      let found : resource_name (parse_github (trim url)) ≡ some resource =
        sym (ap (λ b. if not b then none else resource_name (parse_github (trim url))) e) ∙ h in
      let (owner, repo, parsed, same) =
        resource_name-some (parse_github (trim url)) resource found in
      (e, owner, repo, parsed, same)
]

grant_ok :
    (name url : Str) (grant : EdgeFallbackGrant)
    → github_grant_for_package name url ≡ issued grant
    → (resource : Str) × (canonical_github_resource url ≡ some resource)
      × (github_grant name resource ≡ grant)
unfolding github_grant_for_package
grant_ok name url grant h =
    let (resource, e, same) = issue_ok (ok_or (canonical_github_resource url) _) _ grant h in
    (resource, ok_or-some (canonical_github_resource url) _ resource e, cc)

approved_parts :
    (url : Str)
    → is_approved url ≡ true
    → (rest : Str) × ((url ≡ str "https://github.com/" ++ rest)
        ⊎ (url ≡ str "git@github.com:" ++ rest))
unfolding is_approved
approved_parts url h = elim (Bool-cases (starts_with url (str "https://github.com/"))) [
  | inl e ↦
      let (rest, parts) = starts_with_parts url (str "https://github.com/") e in (rest, inl parts)
  | inr e ↦
      let later = sym (ap (λ b. b || starts_with url (str "git@github.com:")) e) ∙ h in
      let (rest, parts) = starts_with_parts url (str "git@github.com:") later in (rest, inr parts)
]

lifetime_ok :
    (max_ttl_seconds ttl_seconds : ℕ)
    → (ttl_seconds == 0 || ltb max_ttl_seconds ttl_seconds) ≡ false
    → (0 < ttl_seconds) × (ttl_seconds ≤ max_ttl_seconds)
lifetime_ok max_ttl_seconds ttl_seconds e = ground arith

module _ (capability_version max_ttl_seconds : ℕ) (audience : Str)
    (validate : EdgeFallbackCapability → Option Str) where
  -- What a capability says of the request it was issued for.
  pub record IsScoped (principal : EdgeCapabilityPrincipal) (name url : Str)
      (issued_at ttl_seconds : ℕ) (capability : EdgeFallbackCapability) : Type 0 where
    pub lifetime : (0 < ttl_seconds) × (ttl_seconds ≤ max_ttl_seconds)
    pub from_now : (capability.iat ≡ issued_at) × (capability.nbf ≡ issued_at)
    pub until : (capability.exp ≡ issued_at + ttl_seconds) × (capability.exp < 2 ^ 64)
    pub addressed :
        (capability.zed_edge_capability ≡ capability_version) × (capability.aud ≡ audience)
    pub holder :
        (capability.sub ≡ principal.subject)
        × (capability.sid ≡ principal.session_id)
        × (capability.parent_jti ≡ principal.parent_jti)
    pub scope :
        (owner repo : Str) × (parse_github (trim url) ≡ some (owner, repo))
        × (valid_repo_segment owner ≡ true)
        × (valid_repo_segment repo ≡ true)
        × (capability.grants
            ≡ record {
              operation = read;
              package_name = name;
              credential_ref = str "github-app:repo:" ++ (owner ++ b'/' ∷ repo);
              resource = owner ++ b'/' ∷ repo;
            }
              ∷ [])
    pub approved :
        (rest : Str) × ((trim url ≡ str "https://github.com/" ++ rest)
          ⊎ (trim url ≡ str "git@github.com:" ++ rest))
    pub validated : validate capability ≡ none

  -- A capability that is issued is good for at most the greatest lifetime, from the time of issue
  -- on, for the expected audience and for its caller's session; it grants one thing, to read the package from the
  -- repository that its approved GitHub address names, and neither name of that repository can
  -- hold a separator or be made of dots. It has passed the validation.
  pub build_github_capability-IsScoped :
      (issuer : Str) (principal : EdgeCapabilityPrincipal) (name url : Str)
      → (issued_at ttl_seconds : ℕ) (capability_id : Str) (capability : EdgeFallbackCapability)
      → build_github_capability capability_version max_ttl_seconds audience validate issuer
          principal name url issued_at ttl_seconds capability_id
        ≡ issued capability
      → IsScoped principal name url issued_at ttl_seconds capability
  unfolding build_github_capability
  build_github_capability-IsScoped issuer principal name url issued_at ttl_seconds capability_id
        capability h =
      elim (Bool-cases (ttl_seconds == 0 || ltb max_ttl_seconds ttl_seconds)) [
        | inl e ↦ cc
        | inr e ↦
            let (expires_at, e1, h1) =
              issue_ok (ok_or (checked_add issued_at ttl_seconds) invalid_lifetime) _ capability
                (else_of (ttl_seconds == 0 || ltb max_ttl_seconds ttl_seconds) _ _ _ e h) in
            let (grant, e2, h2) = issue_ok (github_grant_for_package name url) _ capability h1 in
            let (valid, same) = accepted _ _ capability h2 in
            let (sum, bound) =
              checked_add-some issued_at ttl_seconds expires_at (ok_or-some _ _ _ e1) in
            let (resource, e3, granted) = grant_ok name url grant e2 in
            let (host, owner, repo, parsed, named) = canonical_github_resource_ok url resource e3 in
            let (owner_valid, repo_valid) = parse_github-valid (trim url) owner repo parsed in
            record {
              lifetime = lifetime_ok max_ttl_seconds ttl_seconds e;
              from_now = (ap (λ c. c.iat) (sym same), ap (λ c. c.nbf) (sym same));
              until = (ap (λ c. c.exp) (sym same) ∙ sum, subst (λ c. c.exp < 2 ^ 64) same bound);
              addressed = (ap (λ c. c.zed_edge_capability) (sym same), ap (λ c. c.aud) (sym same));
              holder = (
                ap (λ c. c.sub) (sym same),
                ap (λ c. c.sid) (sym same),
                ap (λ c. c.parent_jti) (sym same),
              );
              scope = (
                owner,
                repo,
                parsed,
                owner_valid,
                repo_valid,
                ap (λ c. c.grants) (sym same)
                    ∙ ap (λ g. g ∷ []) (sym granted ∙ ap (github_grant name) named),
              );
              approved = approved_parts (trim url) host;
              validated = ap validate (sym same) ∙ valid;
            }
      ]
