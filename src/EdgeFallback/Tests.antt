-- ===== src/EdgeFallback/Tests.antt =====
-- Tests of src/edge_fallback.rs, the cases of its own tests among them.
use zed_api_server_rs.Prelude.{Option, none, some, ◌≡◌, refl}
use zed_api_server_rs.Text.{Str, str}
use zed_api_server_rs.EdgeFallback.{
  EdgeCapabilityPrincipal, EdgeFallbackCapability, issued, refused, public_package, read_denied,
  unsupported_visibility, invalid_lifetime, authorize_private_package_read,
  canonical_github_resource, github_grant, capability_of, build_github_capability,
}
use zed_api_server_rs.EdgeFallback.Capabilities.{IsScoped, build_github_capability-IsScoped}

test-no-role : authorize_private_package_read (str "private") none none ≡ refused read_denied
unfolding authorize_private_package_read str
test-no-role = refl

test-reader : authorize_private_package_read (str "private") (some (str "reader")) none ≡ issued tt
unfolding authorize_private_package_read str
test-reader = refl

test-public :
    authorize_private_package_read (str "public") (some (str "owner")) none ≡ refused public_package
unfolding authorize_private_package_read str
test-public = refl

test-internal :
    authorize_private_package_read (str "internal") (some (str "owner")) none
    ≡ refused unsupported_visibility
unfolding authorize_private_package_read str
test-internal = refl

test-plain-http : canonical_github_resource (str "http://github.com/acme/kit") ≡ none
unfolding canonical_github_resource str
test-plain-http = refl

abbrev principal : EdgeCapabilityPrincipal
principal = record {
  subject = str "user:1";
  session_id = str "session:1";
  parent_jti = str "parent:1";
}

abbrev repository : Str
repository = str " https://github.com/acme/kit.git "

abbrev admits_all : EdgeFallbackCapability → Option Str
admits_all capability = none

abbrev expected : EdgeFallbackCapability
expected =
    capability_of 2 900 (str "edge") admits_all (str "registry") principal 1000 1300 (str "cap:1")
      (github_grant (str "acme/kit") (str "acme/kit"))

test-issued :
    build_github_capability 2 900
      (str "edge")
      admits_all
      (str "registry")
      principal
      (str "acme/kit")
      repository
      1000
      300
      (str "cap:1")
    ≡ issued expected
unfolding build_github_capability str
test-issued = refl

test-too-long :
    build_github_capability 2 900
      (str "edge")
      admits_all
      (str "registry")
      principal
      (str "acme/kit")
      repository
      1000
      901
      (str "cap:1")
    ≡ refused invalid_lifetime
unfolding build_github_capability
test-too-long = refl

build_github_capability-IsScoped_example :
    IsScoped 2 900 (str "edge") admits_all principal (str "acme/kit") repository 1000 300 expected
build_github_capability-IsScoped_example =
    build_github_capability-IsScoped 2 900 (str "edge") admits_all (str "registry") principal
      (str "acme/kit") repository 1000 300 (str "cap:1") expected test-issued
