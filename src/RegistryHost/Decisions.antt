-- ===== src/RegistryHost/Decisions.antt =====
-- The transition function `decide` of src/registry_host.rs, and the middleware around it.
use zed_api_server_rs.Prelude.{
  ◌≡◌, ◌≢◌, subst, ||_false, refl, sym, ap, ◌⊎◌, inl, inr, ◌↔◌, Bool, true, false, not, Option,
  none, some, List, [], ◌∷◌, ◌++◌, arith, if◌then◌else◌, any, All, Bool-cases, Option-cases,
}
use mathlib.Core.List.{Memᴰ}
use zed_api_server_rs.Text.{Str, str, str_eq}
use zed_api_server_rs.Text.Equality.{str_eq_iff}
use zed_api_server_rs.RegistryHost.{
  BoundaryDecision, bypass, allow, reject_route, reject_method, RouteSpec, read_methods,
  post_methods, put_methods, version_methods, is_registry_host, is_some_and, registry_route, decide,
  decide_method, allow_header, is_read, request_host, forward, enforce, enforce_registry_host,
  is_suspicious,
}
use zed_api_server_rs.RegistryHost.Surface.{Route, IsValid, route_spec, healthz}
use zed_api_server_rs.RegistryHost.Paths.{
  Reached, path_of, registry_route_sound, registry_route_complete,
}
use zed_api_server_rs.RegistryHost.Segments.{IsPlain}
use zed_api_server_rs.RegistryHost.Guard.{IsClean, clean_path}

decide_lem :
    (host : Option Str) (method path : Str)
    → decide host method path ≡ (
        if is_some_and is_registry_host host
        then decide_method (registry_route path) method
        else bypass)
unfolding decide
decide_lem host method path = refl

-- The methods of a route, as the `Allow` header lists them.
abbrev comma_joined : List Str → Str
comma_joined [] = []
comma_joined (m ∷ []) = m
comma_joined (m ∷ n ∷ ms) = m ++ str ", " ++ comma_joined (n ∷ ms)

allow_header_joined :
    (r : Route) → allow_header (route_spec r).methods ≡ comma_joined (route_spec r).methods
unfolding allow_header
allow_header_joined healthz = refl
allow_header_joined r = refl

-- A method that is allowed on a route and is no read method changes the registry.
abbrev Mutates : Str → Type 0
Mutates method = (method ≡ str "PUT") ⊎ (method ≡ str "POST")

any-mem : (method : Str) (ms : List Str) → any (λ m. str_eq m method) ms ≡ true → Memᴰ method ms
any-mem method [] h = cc
any-mem method (m ∷ ms) h = elim (Bool-cases (str_eq m method)) [
  | inl same ↦ Memᴰ.head (sym ((str_eq_iff m method).0 same))
  | inr other ↦ Memᴰ.tail (any-mem method ms (ground arith))
]

any-not_mem :
    (method : Str) (ms : List Str)
    → any (λ m. str_eq m method) ms ≡ false
    → All (λ m. m ≢ method) ms
any-not_mem method [] h = tt
any-not_mem method (m ∷ ms) h = (
  λ e.
      cc (
        (str_eq_iff m method).1 e,
        (||_false (str_eq m method) (any (λ n. str_eq n method) ms) h).0,
      ),
  any-not_mem method ms (||_false (str_eq m method) (any (λ n. str_eq n method) ms) h).1,
)

-- The methods of every route are the three that read, and two that change the registry.
abbrev IsKnown : Str → Type 0
IsKnown m = (is_read m ≡ true) ⊎ Mutates m

read_methods-IsKnown : All IsKnown read_methods
unfolding read_methods is_read str
read_methods-IsKnown = (inl refl, (inl refl, (inl refl, tt)))

post_methods-IsKnown : All IsKnown post_methods
unfolding post_methods is_read str
post_methods-IsKnown = (inr (inr refl), (inl refl, tt))

put_methods-IsKnown : All IsKnown put_methods
unfolding put_methods is_read str
put_methods-IsKnown = (inr (inl refl), (inl refl, tt))

version_methods-IsKnown : All IsKnown version_methods
unfolding version_methods is_read str
version_methods-IsKnown = (inl refl, (inl refl, (inr (inl refl), (inl refl, tt))))

route_spec-IsKnown : (r : Route) → All IsKnown (route_spec r).methods
route_spec-IsKnown healthz = read_methods-IsKnown
route_spec-IsKnown _ =
    assumption
      (read_methods-IsKnown, post_methods-IsKnown, put_methods-IsKnown, version_methods-IsKnown)

Memᴰ-All {ℓ} : {A : Type ℓ} (P : A → Type 0) {x : A} {xs : List A} → Memᴰ x xs → All P xs → P x
Memᴰ-All P (Memᴰ.head e) (p, h) = subst P (sym e) p
Memᴰ-All P (Memᴰ.tail m) (p, h) = Memᴰ-All P m h

Mutates-not_read : (m : Str) → Mutates m → is_read m ≡ false
unfolding is_read str
Mutates-not_read m (inl e) = rw e
Mutates-not_read m (inr e) = rw e

mutating_iff :
    (r : Route) (m : Str) → Memᴰ m (route_spec r).methods → (not (is_read m) ≡ true) ↔ Mutates m
mutating_iff r m listed = elim (Memᴰ-All IsKnown listed (route_spec-IsKnown r)) [
  | inl read ↦ ((λ h. cc), (λ h. cc (Mutates-not_read m h)))
  | inr changes ↦ ((λ h. changes), (λ h. rw (Mutates-not_read m changes)))
]

-- What a decision about a request to the registry host says of its method and path.
abbrev pub Justified : Str → Str → BoundaryDecision → Type 0
Justified method path bypass = ⊥
Justified method path (allow name mutating) =
    (found : RouteSpec) × Reached path found
    × (found.name ≡ name)
    × Memᴰ method found.methods
    × ((mutating ≡ true) ↔ Mutates method)
Justified method path reject_route =
    (r : Route) → IsValid r → IsPlain r → IsClean path → path ≢ path_of r
Justified method path (reject_method header) =
    (found : RouteSpec) × Reached path found
    × All (λ m. m ≢ method) found.methods
    × (header ≡ comma_joined found.methods)

unserved-Justified :
    (method path : Str)
    → registry_route path ≡ none
    → Justified method path (decide_method none method)
unfolding decide_method
unserved-Justified method path missing r valid plain clean e = cc (
  registry_route_complete r valid plain
      (subst (λ p. is_suspicious p ≡ false) e (clean_path path clean)),
  ap registry_route e,
  missing,
)

served-Justified :
    (method path : Str) (found : RouteSpec)
    → Reached path found
    → Justified method path (decide_method (some found) method)
unfolding decide_method
served-Justified method path found reached =
    elim (Bool-cases (any (λ m. str_eq m method) found.methods)) [
      | inl listed ↦ rw listed (
          let member : Memᴰ method found.methods = any-mem method found.methods listed in
          (
            found,
            reached,
            refl,
            member,
            mutating_iff reached.route method
                (subst (λ s. Memᴰ method s.methods) (sym reached.answered) member),
          ))
      | inr other ↦ rw other (
        found,
        reached,
        any-not_mem method found.methods other,
        subst (λ s. allow_header s.methods ≡ comma_joined s.methods) reached.answered
            (allow_header_joined reached.route),
      )
    ]

-- On the registry host a request is never bypassed. It is allowed only at a path of the machine
-- surface with a method of that route, and counts as mutating exactly if the method is PUT or POST;
-- it is refused by method only at such a path, with the route's methods in the `Allow` header; and
-- it is refused by route only if the path is empty, is longer than 2048 bytes, holds `%`, `\`, `..`
-- or `//`, or is not the path of a route with valid parameters and no slash in a file's segments.
pub decide-Justified :
    (host method path : Str)
    → is_registry_host host ≡ true
    → Justified method path (decide (some host) method path)
decide-Justified host method path registry = elim (Option-cases (registry_route path)) [
  | inl missing ↦
      rw (decide_lem (some host) method path, registry, missing)
        (unserved-Justified method path missing)
  | inr (found, e) ↦
      rw (decide_lem (some host) method path, registry, e)
        (served-Justified method path found (registry_route_sound path found e))
]

forward-allow :
    (d : BoundaryDecision)
    → enforce d ≡ forward
    → (d ≡ bypass) ⊎ ((name : Str) × (m : Bool) × (d ≡ allow name m))
unfolding enforce
forward-allow bypass h = inl refl
forward-allow (allow name m) h = inr (name, m, refl)
forward-allow reject_route h = cc
forward-allow (reject_method header) h = cc

enforce_registry_host_lem :
    (header authority : Option Str) (method path : Str)
    → enforce_registry_host header authority method path
      ≡ enforce (decide (request_host header authority) method path)
unfolding enforce_registry_host
enforce_registry_host_lem header authority method path = refl

-- The middleware hands a request of the registry host on to the handlers only at a path of the
-- machine surface and with a method of that route.
pub enforce_registry_host-forward :
    (header authority : Option Str) (method path host : Str)
    → request_host header authority ≡ some host
    → is_registry_host host ≡ true
    → enforce_registry_host header authority method path ≡ forward
    → (found : RouteSpec) × Reached path found × Memᴰ method found.methods
enforce_registry_host-forward header authority method path host named registry h =
    let just = decide-Justified host method path registry in
    elim (forward-allow (decide (some host) method path)
      (rw (enforce_registry_host_lem header authority method path, named) at h)) [
        | inl e ↦ absurd (subst (Justified method path) e just)
        | inr (name, m, e) ↦
            let (found, reached, _, member, _) = subst (Justified method path) e just in
            (found, reached, member)
      ]
