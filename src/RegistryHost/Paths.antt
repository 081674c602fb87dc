-- ===== src/RegistryHost/Paths.antt =====
-- src/registry_host.rs at the level of whole paths: from the text of a path to a route, and back.
use zed_api_server_rs.Prelude.{
  ◌≡◌, refl, ap, ◌∙◌, inl, inr, true, false, none, some, List, [], ◌∷◌, ◌++◌, arith, if◌then◌else◌,
  All, Bool-cases, Option-cases, subst,
}
use zed_api_server_rs.Text.{Str, str, strip_prefix, trim_end_matches}
use zed_api_server_rs.Text.Search.{Lacks, strip_prefix_sound}
use zed_api_server_rs.Text.Split.{join, join-split, join_last, split-join, split-Lacks}
use zed_api_server_rs.Text.Trim.{trim_end_parts, trim_end_keep}
use zed_api_server_rs.RegistryHost.{
  RouteSpec, is_suspicious, is_slash, segments_of, registry_route, route_below, arms, select,
}
use zed_api_server_rs.RegistryHost.Surface.{Route, healthz, files, url, IsValid, route_spec}
use zed_api_server_rs.RegistryHost.Sound.{select_sound}
use zed_api_server_rs.RegistryHost.Complete.{select_complete}
use zed_api_server_rs.RegistryHost.Segments.{IsProper, IsPlain, url-IsProper}

-- The path of a route, without a trailing slash.
abbrev pub path_of : Route → Str
path_of r = b'/' ∷ join b'/' (url r)

url-Lacks : (parts : List Str) → All IsProper parts → All (Lacks b'/') parts
url-Lacks [] h = tt
url-Lacks (s ∷ parts) ((_, p), h) = (p, url-Lacks parts h)

-- A URL has a first segment.
url_cons : (r : Route) → (s : Str) × (parts : List Str) × (url r ≡ s ∷ parts)
url_cons healthz = (_, _, refl)
url_cons r = (_, _, refl)

-- The segments of a joined URL are the URL.
segments_of-join :
    (s : Str) (parts : List Str)
    → All IsProper (s ∷ parts)
    → segments_of (join b'/' (s ∷ parts)) ≡ s ∷ parts
unfolding segments_of
segments_of-join s parts h =
    let (t, e, eq, n) = join_last b'/' s parts h in
    rw (eq, trim_end_keep is_slash t e (ground arith), ← eq)
      (split-join b'/' s parts (url-Lacks (s ∷ parts) h))

segments_of-url : (r : Route) → IsValid r → IsPlain r → segments_of (join b'/' (url r)) ≡ url r
segments_of-url r h k =
    let (s, parts, e) = url_cons r in
    let proper : All IsProper (s ∷ parts) = subst (All IsProper) e (url-IsProper r h k) in
    rw e (segments_of-join s parts proper)

registry_route_lem :
    (path : Str)
    → registry_route path
      ≡ (if is_suspicious path then none else route_below (strip_prefix path (str "/")))
unfolding registry_route
registry_route_lem path = refl

strip_slash : (below : Str) → strip_prefix (b'/' ∷ below) (str "/") ≡ some below
unfolding strip_prefix str
strip_slash below = refl

-- Every route of the machine surface is served at its path: with valid parameters, and no slash in
-- a segment of a file's path, `registry_route` answers the route's name and methods, if the path
-- passes the guard on suspicious texts.
pub registry_route_complete :
    (r : Route)
    → IsValid r
    → IsPlain r
    → is_suspicious (path_of r) ≡ false
    → registry_route (path_of r) ≡ some (route_spec r)
registry_route_complete r h k clean =
    rw
      (
        registry_route_lem (path_of r),
        clean,
        strip_slash (join b'/' (url r)),
        segments_of-url r h k,
      )
      (select_complete r h)

-- What `registry_route` lets through.
pub record Reached (path : Str) (found : RouteSpec) : Type 0 where
  pub route : Route
  pub valid : IsValid route
  pub plain : IsPlain route
  pub trailing : Str
  pub slashes : All (λ c. c ≡ b'/') trailing
  pub written : path ≡ path_of route ++ trailing
  pub answered : route_spec route ≡ found
  pub clean : is_suspicious path ≡ false

url-IsPlain : (r : Route) → All (Lacks b'/') (url r) → IsPlain r
url-IsPlain (files org name v path) (_, (_, (_, (_, (_, h))))) = h
url-IsPlain healthz h = tt
url-IsPlain _ h = tt

segments_of-Lacks : (below : Str) → All (Lacks b'/') (segments_of below)
unfolding segments_of
segments_of-Lacks below = split-Lacks b'/' (trim_end_matches is_slash below)

slashes-All : (t : Str) → All (λ c. is_slash c ≡ true) t → All (λ c. c ≡ b'/') t
slashes-All [] h = tt
slashes-All (c ∷ t) (p, h) = (ground arith, slashes-All t h)

segments_of_parts :
    (below : Str) → (t : Str) × All (λ c. c ≡ b'/') t × (below ≡ join b'/' (segments_of below) ++ t)
unfolding segments_of
segments_of_parts below =
    let (t, h, e) = trim_end_parts is_slash below in
    (t, slashes-All t h, rw (join-split b'/' (trim_end_matches is_slash below)) e)

Reached-below :
    (path below : Str) (found : RouteSpec)
    → is_suspicious path ≡ false
    → path ≡ b'/' ∷ below
    → select arms (segments_of below) ≡ some found
    → Reached path found
Reached-below path below found clean e h =
    let (r, valid, segments, answered) = select_sound (segments_of below) found h in
    let (t, slashes, parts) = segments_of_parts below in
    record {
      route = r;
      valid = valid;
      plain = url-IsPlain r (subst (All (Lacks b'/')) segments (segments_of-Lacks below));
      trailing = t;
      slashes = slashes;
      written = e ∙ ap (λ u. b'/' ∷ u) (parts ∙ ap (λ u. join b'/' u ++ t) segments);
      answered = answered;
      clean = clean;
    }

-- The registry host serves nothing else: a path that `registry_route` answers passed the guard, and
-- is the path of a route with valid parameters and no slash in a file's segments, up to slashes at
-- its end; the answer is that route's name and methods.
pub registry_route_sound :
    (path : Str) (found : RouteSpec) → registry_route path ≡ some found → Reached path found
registry_route_sound path found h = elim (Bool-cases (is_suspicious path)) [
  | inl bad ↦ cc (rw (registry_route_lem path, bad) at h)
  | inr clean ↦ elim (Option-cases (strip_prefix path (str "/"))) [
    | inl missing ↦ cc (rw (registry_route_lem path, clean, missing) at h)
    | inr (below, e) ↦
        Reached-below path below found clean (unfold str in strip_prefix_sound path (str "/") e)
          (rw (registry_route_lem path, clean, e) at h)
  ]
]
