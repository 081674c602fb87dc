-- ===== src/RegistryHost.antt =====
-- src/registry_host.rs: the virtual-host boundary of the registry. A request is a Host, a method and
-- a path, all texts; the arms of the route `match` are a table of segment patterns in source order.
pub mod Surface
pub mod Sound
pub mod Complete
pub mod Segments
pub mod Guard
pub mod Paths
pub mod Hosts
pub mod Decisions
mod Tests
use zed_api_server_rs.Prelude.{
  ℕ, Bool, true, false, not, ◌&&◌, ◌||◌, Option, none, some, List, [], ◌∷◌, ltb, leb, ◌==◌,
  if◌then◌else◌, all, any, is_empty,
}
use zed_api_server_rs.Text.{
  Str, str, str_eq, len, bytes, contains, split, starts_with, ends_with, strip_prefix,
  rsplit_once_char, trim, trim_end_matches, to_ascii_lowercase, is_ascii_digit, is_ascii_lowercase,
  is_ascii_alphanumeric, is_ascii_control,
}
use Prim.Native.String.{String}

pub data BoundaryDecision : Type 0 where
  bypass : BoundaryDecision
  allow : Str → Bool → BoundaryDecision
  reject_route : BoundaryDecision
  reject_method : Str → BoundaryDecision

pub record RouteSpec : Type 0 where
  pub name : Str
  pub methods : List Str

unfoldable pub read_methods : List Str
unfolding str
read_methods = str "GET" ∷ str "HEAD" ∷ str "OPTIONS" ∷ []

unfoldable pub post_methods : List Str
unfolding str
post_methods = str "POST" ∷ str "OPTIONS" ∷ []

unfoldable pub put_methods : List Str
unfolding str
put_methods = str "PUT" ∷ str "OPTIONS" ∷ []

unfoldable pub version_methods : List Str
unfolding str
version_methods = str "GET" ∷ str "HEAD" ∷ str "PUT" ∷ str "OPTIONS" ∷ []

abbrev pub slug_byte : ℕ → Bool
slug_byte b = is_ascii_lowercase b || is_ascii_digit b

abbrev pub slug_part : Str → Bool
slug_part part = not (is_empty part) && all slug_byte (bytes part)

unfoldable pub slug : Str → Bool
unfolding len split bytes is_ascii_lowercase is_ascii_digit
slug value =
    not (is_empty value) && leb (len value) 128 && all slug_part (split (λ c. c == b'-') value)

abbrev pub version_byte : ℕ → Bool
version_byte b = is_ascii_alphanumeric b || b == b'.' || b == b'+' || b == b'-'

unfoldable pub version_segment : Str → Bool
unfolding len bytes is_ascii_alphanumeric
version_segment value =
    not (is_empty value) && leb (len value) 128 && all version_byte (bytes value)

unfoldable pub file_segment : Str → Bool
unfolding str str_eq len bytes is_ascii_control
file_segment value =
    not (is_empty value)
    && not (str_eq value (str "."))
    && not (str_eq value (str ".."))
    && leb (len value) 255
    && all (λ b. not (is_ascii_control b)) (bytes value)

abbrev pub hex_byte : ℕ → Bool
hex_byte b = is_ascii_digit b || leb b'a' b && leb b b'f'

unfoldable pub sha256 : Str → Bool
unfolding len bytes is_ascii_digit
sha256 value = len value == 64 && all hex_byte (bytes value)

abbrev is_some_and {ℓ} : {A : Type ℓ} → (A → Bool) → Option A → Bool
is_some_and p none = false
is_some_and p (some a) = p a

unfoldable pub resolution_digest : Str → Bool
unfolding strip_prefix sha256 str
resolution_digest value = is_some_and sha256 (strip_prefix value (str "sha256:"))

-- One element of a slice pattern: a literal, a binding with its guard, or `rest @ ..` with its guard.
pub data Segment : Type 0 where
  lit : Str → Segment
  bind : (Str → Bool) → Segment
  rest : (Str → Bool) → Segment

unfoldable pub matches : List Segment → List Str → Bool
unfolding str_eq
matches [] [] = true
matches [] (s ∷ ss) = false
matches (lit l ∷ ps) [] = false
matches (lit l ∷ ps) (s ∷ ss) = str_eq s l && matches ps ss
matches (bind p ∷ ps) [] = false
matches (bind p ∷ ps) (s ∷ ss) = p s && matches ps ss
matches (rest p ∷ ps) ss = not (is_empty ss) && all p ss

pub record Arm : Type 0 where
  pub pattern : List Segment
  pub spec : RouteSpec

abbrev arm : List Segment → String → List Str → Arm
arm pattern name methods = record {
  pattern = pattern;
  spec = record { name = str name; methods = methods };
}

-- `["v1", "packages", org, package, ..]`
abbrev pub package_pattern : List Segment → List Segment
package_pattern more = lit (str "v1") ∷ lit (str "packages") ∷ bind slug ∷ bind slug ∷ more

-- `["v1", "packages", org, package, "versions", version, ..]`
abbrev pub version_pattern : List Segment → List Segment
version_pattern more = package_pattern (lit (str "versions") ∷ bind version_segment ∷ more)

-- The arms of the `match` in `registry_route`.
unfoldable pub arms : List Arm
arms =
    arm (lit (str "healthz") ∷ []) "healthz" read_methods
    ∷ arm (lit (str "v1") ∷ lit (str "packages") ∷ []) "list_packages" read_methods
    ∷ arm (package_pattern []) "get_package" read_methods
    ∷ arm (version_pattern []) "version" version_methods
    ∷ arm (version_pattern (lit (str "yank") ∷ [])) "yank" post_methods
    ∷ arm (package_pattern (lit (str "embedding") ∷ [])) "embedding" put_methods
    ∷ arm (version_pattern (lit (str "dependency-graph") ∷ [])) "declared_graph" read_methods
    ∷ arm (version_pattern (lit (str "dependency-graph") ∷ lit (str "export") ∷ bind slug ∷ []))
        "declared_graph_export" read_methods
    ∷ arm (lit (str "v1") ∷ lit (str "artifacts") ∷ bind sha256 ∷ []) "artifact" read_methods
    ∷ arm
        (lit (str "v1")
          ∷ lit (str "files")
          ∷ bind slug
          ∷ bind slug
          ∷ bind version_segment
          ∷ rest file_segment
          ∷ [])
        "files" read_methods
    ∷ arm (lit (str "v1") ∷ lit (str "search") ∷ []) "search" read_methods
    ∷ arm (lit (str "v1") ∷ lit (str "search") ∷ lit (str "semantic") ∷ []) "semantic_search"
        post_methods
    ∷ arm (lit (str "v1") ∷ lit (str "orgs") ∷ []) "claim_org" post_methods
    ∷ arm (lit (str "v1") ∷ lit (str "orgs") ∷ bind slug ∷ lit (str "audit") ∷ []) "audit"
        read_methods
    ∷ arm
        (lit (str "v1")
          ∷ lit (str "orgs")
          ∷ bind slug
          ∷ lit (str "audit")
          ∷ lit (str "verify")
          ∷ [])
        "audit_verify" read_methods
    ∷ arm
        (lit (str "v1")
          ∷ lit (str "resolutions")
          ∷ bind resolution_digest
          ∷ lit (str "dependency-graph")
          ∷ [])
        "resolution_graph" read_methods
    ∷ []

unfoldable pub select : List Arm → List Str → Option RouteSpec
unfolding matches
select [] segments = none
select (a ∷ as') segments =
    let later = select as' segments in if matches a.pattern segments then some a.spec else later

-- The guard at the top of `registry_route`.
unfoldable pub is_suspicious : Str → Bool
unfolding len contains str
is_suspicious path =
    is_empty path
    || ltb 2048 (len path)
    || contains path (str "%")
    || contains path (str "..")
    || contains path (str "\\")
    || contains path (str "//")

abbrev is_slash : ℕ → Bool
is_slash c = c == b'/'

unfoldable pub segments_of : Str → List Str
unfolding trim_end_matches split
segments_of below = split is_slash (trim_end_matches is_slash below)

abbrev pub route_below : Option Str → Option RouteSpec
route_below none = none
route_below (some below) = select arms (segments_of below)

unfoldable pub registry_route : Str → Option RouteSpec
unfolding is_suspicious strip_prefix str arms select segments_of slug version_segment file_segment
    sha256 resolution_digest read_methods post_methods put_methods version_methods
registry_route path = if is_suspicious path then none else route_below (strip_prefix path (str "/"))

abbrev digits_only : Str × Str → Bool
digits_only q = all is_ascii_digit (bytes q.1)

abbrev pub without_port : Str → Option (Str × Str) → Str
without_port host none = host
without_port host (some q) = if digits_only q then q.0 else host

unfoldable pub strip_port : Str → Str
unfolding starts_with rsplit_once_char bytes is_ascii_digit str
strip_port host =
    if starts_with host (str "[") then host else without_port host (rsplit_once_char host b':')

unfoldable pub is_registry_host : Str → Bool
unfolding strip_port trim_end_matches str_eq starts_with ends_with str
is_registry_host raw_host =
    let host = trim_end_matches (λ c. c == b'.') (strip_port raw_host) in
    str_eq host (str "registry.zpkg.net")
    || starts_with host (str "registry.") && ends_with host (str ".zpkg.net")

-- The text of the Host header, if it has one, or the authority of the URI.
unfoldable pub request_host : Option Str → Option Str → Option Str
unfolding trim trim_end_matches to_ascii_lowercase
request_host (some value) authority =
    some (to_ascii_lowercase (trim_end_matches (λ c. c == b'.') (trim value)))
request_host none (some authority) = some (to_ascii_lowercase authority)
request_host none none = none

unfoldable pub methods_eq : List Str → List Str → Bool
unfolding str_eq
methods_eq [] [] = true
methods_eq [] (y ∷ ys) = false
methods_eq (x ∷ xs) [] = false
methods_eq (x ∷ xs) (y ∷ ys) = str_eq x y && methods_eq xs ys

unfoldable pub allow_header : List Str → Str
unfolding methods_eq read_methods post_methods put_methods version_methods str
allow_header methods =
    if methods_eq methods read_methods
    then str "GET, HEAD, OPTIONS"
    else if methods_eq methods post_methods
    then str "POST, OPTIONS"
    else if methods_eq methods put_methods
    then str "PUT, OPTIONS"
    else if methods_eq methods version_methods
    then str "GET, HEAD, PUT, OPTIONS"
    else str "OPTIONS"

unfoldable pub is_read : Str → Bool
unfolding str_eq str
is_read method =
    str_eq method (str "GET") || str_eq method (str "HEAD") || str_eq method (str "OPTIONS")

-- `decide` behind its first two exits.
unfoldable pub decide_method : Option RouteSpec → Str → BoundaryDecision
unfolding allow_header is_read str_eq
decide_method none method = reject_route
decide_method (some route) method =
    if any (λ m. str_eq m method) route.methods
    then allow route.name (not (is_read method))
    else reject_method (allow_header route.methods)

unfoldable pub decide : Option Str → Str → Str → BoundaryDecision
unfolding is_registry_host registry_route decide_method
decide host method path =
    if is_some_and is_registry_host host then decide_method (registry_route path) method else bypass

-- What `enforce_registry_host` does with a request: hand it on, or answer with a problem.
pub data Enforcement : Type 0 where
  forward : Enforcement
  problem : ℕ → Str → Str → Option Str → Enforcement

unfoldable pub enforce : BoundaryDecision → Enforcement
unfolding str
enforce bypass = forward
enforce (allow route mutating) = forward
enforce reject_route =
    problem 404 (str "not_registry_route") (str "use api.zpkg.net for non-registry APIs") none
enforce (reject_method methods) =
    problem 405 (str "method_not_allowed") (str "method is not valid for this registry route")
      (some methods)

unfoldable pub enforce_registry_host : Option Str → Option Str → Str → Str → Enforcement
unfolding request_host decide enforce
enforce_registry_host header authority method path =
    enforce (decide (request_host header authority) method path)
