-- ===== src/RegistryHost/Surface.antt =====
-- The machine surface of the registry host of src/registry_host.rs: the routes with their parameters,
-- and what a slice pattern says of the segments that it matches.
use Prim.Native.String.{String}
use zed_api_server_rs.Prelude.{
  ◌≡◌, refl, ap, ◌≢◌, ◌⊎◌, inl, inr, Bool, true, not, some, List, [], ◌∷◌, arith, all, is_empty,
  All, Bool-cases, &&_parts,
}
use zed_api_server_rs.Text.{Str, str}
use zed_api_server_rs.Text.Equality.{str_eq_iff}
use zed_api_server_rs.RegistryHost.{
  RouteSpec, read_methods, post_methods, put_methods, version_methods, slug, version_segment,
  file_segment, sha256, resolution_digest, Segment, lit, bind, rest, matches, Arm, select,
}

-- A route of the machine API, with its parameters.
pub data Route : Type 0 where
  healthz list_packages search semantic_search claim_org : Route
  get_package embedding : Str → Str → Route
  version yank declared_graph : Str → Str → Str → Route
  declared_graph_export : Str → Str → Str → Str → Route
  artifact resolution_graph audit audit_verify : Str → Route
  files : Str → Str → Str → List Str → Route

abbrev pub package_url : Str → Str → List Str → List Str
package_url org name more = str "v1" ∷ str "packages" ∷ org ∷ name ∷ more

abbrev pub version_url : Str → Str → Str → List Str → List Str
version_url org name v more = package_url org name (str "versions" ∷ v ∷ more)

-- The segments of its URL.
abbrev pub url : Route → List Str
url healthz = str "healthz" ∷ []
url list_packages = str "v1" ∷ str "packages" ∷ []
url search = str "v1" ∷ str "search" ∷ []
url semantic_search = str "v1" ∷ str "search" ∷ str "semantic" ∷ []
url claim_org = str "v1" ∷ str "orgs" ∷ []
url (get_package org name) = package_url org name []
url (embedding org name) = package_url org name (str "embedding" ∷ [])
url (version org name v) = version_url org name v []
url (yank org name v) = version_url org name v (str "yank" ∷ [])
url (declared_graph org name v) = version_url org name v (str "dependency-graph" ∷ [])
url (declared_graph_export org name v format) =
    version_url org name v (str "dependency-graph" ∷ str "export" ∷ format ∷ [])
url (artifact digest) = str "v1" ∷ str "artifacts" ∷ digest ∷ []
url (resolution_graph digest) = str "v1" ∷ str "resolutions" ∷ digest ∷ str "dependency-graph" ∷ []
url (audit org) = str "v1" ∷ str "orgs" ∷ org ∷ str "audit" ∷ []
url (audit_verify org) = str "v1" ∷ str "orgs" ∷ org ∷ str "audit" ∷ str "verify" ∷ []
url (files org name v path) = str "v1" ∷ str "files" ∷ org ∷ name ∷ v ∷ path

abbrev pub IsPackage : Str → Str → Type 0
IsPackage org name = (slug org ≡ true) × (slug name ≡ true)

abbrev pub IsVersion : Str → Str → Str → Type 0
IsVersion org name v = (slug org ≡ true) × (slug name ≡ true) × (version_segment v ≡ true)

-- What its parameters must satisfy.
abbrev pub IsValid : Route → Type 0
IsValid (get_package org name) = IsPackage org name
IsValid (embedding org name) = IsPackage org name
IsValid (version org name v) = IsVersion org name v
IsValid (yank org name v) = IsVersion org name v
IsValid (declared_graph org name v) = IsVersion org name v
IsValid (declared_graph_export org name v format) = IsVersion org name v × (slug format ≡ true)
IsValid (artifact digest) = sha256 digest ≡ true
IsValid (resolution_graph digest) = resolution_digest digest ≡ true
IsValid (audit org) = slug org ≡ true
IsValid (audit_verify org) = slug org ≡ true
IsValid (files org name v path) =
    IsVersion org name v × (path ≢ []) × All (λ s. file_segment s ≡ true) path
IsValid _ = Unit

abbrev pub spec : String → List Str → RouteSpec
spec title methods = record { name = str title; methods = methods }

-- Its name and its methods.
abbrev pub route_spec : Route → RouteSpec
route_spec healthz = spec "healthz" read_methods
route_spec list_packages = spec "list_packages" read_methods
route_spec search = spec "search" read_methods
route_spec semantic_search = spec "semantic_search" post_methods
route_spec claim_org = spec "claim_org" post_methods
route_spec (get_package _ _) = spec "get_package" read_methods
route_spec (embedding _ _) = spec "embedding" put_methods
route_spec (version _ _ _) = spec "version" version_methods
route_spec (yank _ _ _) = spec "yank" post_methods
route_spec (declared_graph _ _ _) = spec "declared_graph" read_methods
route_spec (declared_graph_export _ _ _ _) = spec "declared_graph_export" read_methods
route_spec (artifact _) = spec "artifact" read_methods
route_spec (resolution_graph _) = spec "resolution_graph" read_methods
route_spec (audit _) = spec "audit" read_methods
route_spec (audit_verify _) = spec "audit_verify" read_methods
route_spec (files _ _ _ _) = spec "files" read_methods

-- What a slice pattern says of the segments that it matches.
abbrev pub Fits : List Segment → List Str → Type 0
Fits [] segments = segments ≡ []
Fits (lit l ∷ ps) segments = (ss : List Str) × (segments ≡ l ∷ ss) × Fits ps ss
Fits (bind p ∷ ps) segments =
    (s : Str) × (ss : List Str) × (p s ≡ true) × (segments ≡ s ∷ ss) × Fits ps ss
Fits (rest p ∷ ps) segments = (segments ≢ []) × All (λ s. p s ≡ true) segments

all-All : (p : Str → Bool) (ss : List Str) → all p ss ≡ true → All (λ s. p s ≡ true) ss
all-All p [] h = tt
all-All p (s ∷ ss) h = let (now, later) = &&_parts _ _ h in (now, all-All p ss later)

is_empty-false : (ss : List Str) → not (is_empty ss) ≡ true → ss ≢ []
is_empty-false [] h e = cc
is_empty-false (s ∷ ss) h e = cc

matches-Fits : (ps : List Segment) (ss : List Str) → matches ps ss ≡ true → Fits ps ss
unfolding matches
matches-Fits [] [] h = refl
matches-Fits [] (s ∷ ss) h = cc
matches-Fits (lit l ∷ ps) [] h = cc
matches-Fits (lit l ∷ ps) (s ∷ ss) h =
    let (same, later) = &&_parts _ _ h in
    (ss, ap (λ t. t ∷ ss) ((str_eq_iff s l).0 same), matches-Fits ps ss later)
matches-Fits (bind p ∷ ps) [] h = cc
matches-Fits (bind p ∷ ps) (s ∷ ss) h =
    let (now, later) = &&_parts _ _ h in (s, ss, now, refl, matches-Fits ps ss later)
matches-Fits (rest p ∷ ps) ss h =
    let (some_left, passed) = &&_parts _ _ h in (is_empty-false ss some_left, all-All p ss passed)

-- Some arm of the table fits and gives the route.
abbrev pub Chosen : List Arm → List Str → RouteSpec → Type 0
Chosen [] ss found = ⊥
Chosen (a ∷ as') ss found = (Fits a.pattern ss × (a.spec ≡ found)) ⊎ Chosen as' ss found

pub select-Chosen :
    (as' : List Arm) (ss : List Str) (found : RouteSpec)
    → select as' ss ≡ some found
    → Chosen as' ss found
unfolding select
select-Chosen [] ss found h = cc
select-Chosen (a ∷ as') ss found h = elim (Bool-cases (matches a.pattern ss)) [
  | inl hit ↦ inl (matches-Fits a.pattern ss hit, ground arith)
  | inr miss ↦ inr (select-Chosen as' ss found (ground arith))
]
