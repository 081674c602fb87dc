-- ===== src/EdgeFallback.antt =====
-- src/edge_fallback.rs: capabilities that let an edge read a private package from its repository while
-- the registry is away. The version, the audience, the greatest lifetime and the validation of
-- zed-interfaces are parameters; the types have the fields that this code writes.
use zed_api_server_rs.Prelude.{
  ℕ, ◌+◌, Bool, true, false, not, ◌&&◌, ◌||◌, Option, none, some, List, [], ◌∷◌, ◌++◌,
  if◌then◌else◌, ◌==◌, ltb, leb, any, is_empty,
}
use zed_api_server_rs.Text.{Str, str, str_eq, starts_with, trim, len}
use zed_api_server_rs.ArtifactStore.{checked_add}
use zed_api_server_rs.Verify.{parse_github}
pub mod Capabilities
mod Tests

pub data EdgeCapabilityIssueError : Type 0 where
  public_package unsupported_visibility read_denied unsupported_repository :
      EdgeCapabilityIssueError
  invalid_capability : Str → EdgeCapabilityIssueError
  invalid_lifetime : EdgeCapabilityIssueError

pub data IssueResult (A : Type 0) : Type 0 where
  issued : A → IssueResult A
  refused : EdgeCapabilityIssueError → IssueResult A

-- `Result::and_then`
abbrev pub and_then : {A B : Type 0} → IssueResult A → (A → IssueResult B) → IssueResult B
and_then (issued a) f = f a
and_then (refused e) f = refused e

-- `Option::ok_or`
abbrev pub ok_or : {A : Type 0} → Option A → EdgeCapabilityIssueError → IssueResult A
ok_or none e = refused e
ok_or (some a) e = issued a

pub record EdgeCapabilityPrincipal : Type 0 where
  pub subject : Str
  pub session_id : Str
  pub parent_jti : Str

pub data ReadOperation : Type 0 where
  read : ReadOperation

-- The grant for a GitHub repository.
pub record EdgeFallbackGrant : Type 0 where
  pub operation : ReadOperation
  pub package_name : Str
  pub credential_ref : Str
  pub resource : Str

pub record EdgeFallbackCapability : Type 0 where
  pub zed_edge_capability : ℕ
  pub iss : Str
  pub aud : Str
  pub sub : Str
  pub sid : Str
  pub parent_jti : Str
  pub iat : ℕ
  pub nbf : ℕ
  pub exp : ℕ
  pub jti : Str
  pub grants : List EdgeFallbackGrant

-- `char::is_control`
abbrev pub is_control : ℕ → Bool
is_control c = leb c 31 || (leb 127 c && leb c 159)

abbrev pub names_role : Str → Bool
names_role value = not (is_empty value) && (leb (len value) 64 && not (any is_control value))

unfoldable pub has_membership : Option Str → Bool
unfolding trim len
has_membership none = false
has_membership (some role) = names_role (trim role)

unfoldable pub authorize_private_package_read : Str → Option Str → Option Str → IssueResult Unit
unfolding str_eq str has_membership
authorize_private_package_read visibility org_role project_role =
    if str_eq visibility (str "public")
    then refused public_package
    else if not (str_eq visibility (str "private"))
    then refused unsupported_visibility
    else if has_membership org_role || has_membership project_role
    then issued tt
    else refused read_denied

abbrev pub resource_name : Option (Str × Str) → Option Str
resource_name none = none
resource_name (some (owner, repo)) = some (owner ++ b'/' ∷ repo)

unfoldable pub is_approved : Str → Bool
unfolding starts_with str
is_approved url =
    starts_with url (str "https://github.com/") || starts_with url (str "git@github.com:")

unfoldable pub canonical_github_resource : Str → Option Str
unfolding trim is_approved parse_github
canonical_github_resource repo_url =
    if not (is_approved (trim repo_url)) then none else resource_name (parse_github (trim repo_url))

abbrev pub github_grant : Str → Str → EdgeFallbackGrant
github_grant package_name resource = record {
  operation = read;
  package_name = package_name;
  credential_ref = str "github-app:repo:" ++ resource;
  resource = resource;
}

unfoldable pub github_grant_for_package : Str → Str → IssueResult EdgeFallbackGrant
unfolding canonical_github_resource str
github_grant_for_package package_name repo_url =
    and_then (ok_or (canonical_github_resource repo_url) unsupported_repository)
      (λ resource. issued (github_grant package_name resource))

-- `capability.validate()`, which answers what is wrong.
abbrev pub accept : Option Str → EdgeFallbackCapability → IssueResult EdgeFallbackCapability
accept none capability = issued capability
accept (some message) capability = refused (invalid_capability message)

module _ (capability_version max_ttl_seconds : ℕ) (audience : Str)
    (validate : EdgeFallbackCapability → Option Str) where
  abbrev pub capability_of :
      Str → EdgeCapabilityPrincipal → ℕ → ℕ → Str → EdgeFallbackGrant → EdgeFallbackCapability
  capability_of issuer principal issued_at expires_at capability_id grant = record {
    zed_edge_capability = capability_version;
    iss = issuer;
    aud = audience;
    sub = principal.subject;
    sid = principal.session_id;
    parent_jti = principal.parent_jti;
    iat = issued_at;
    nbf = issued_at;
    exp = expires_at;
    jti = capability_id;
    grants = grant ∷ [];
  }

  unfoldable pub build_github_capability :
      (issuer : Str) (principal : EdgeCapabilityPrincipal) (package_name repo_url : Str)
      → (issued_at ttl_seconds : ℕ) (capability_id : Str) → IssueResult EdgeFallbackCapability
  unfolding checked_add github_grant_for_package
  build_github_capability issuer principal package_name repo_url issued_at ttl_seconds
        capability_id =
      if ttl_seconds == 0 || ltb max_ttl_seconds ttl_seconds
      then refused invalid_lifetime
      else and_then (ok_or (checked_add issued_at ttl_seconds) invalid_lifetime) (λ expires_at.
        and_then (github_grant_for_package package_name repo_url) (λ grant.
          let capability =
            capability_of issuer principal issued_at expires_at capability_id grant in
          accept (validate capability) capability))
