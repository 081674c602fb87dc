-- ===== src/RegistryHost/Sound.antt =====
-- What the table of src/registry_host.rs lets through is a route of the machine surface.
use zed_api_server_rs.Prelude.{◌≡◌, inl, inr, some, List, [], ◌∷◌, drop}
use zed_api_server_rs.Text.{Str, str}
use zed_api_server_rs.RegistryHost.{
  RouteSpec, Segment, lit, bind, slug, version_segment, arms, select, package_pattern,
  version_pattern,
}
use zed_api_server_rs.RegistryHost.Surface.{
  Route, healthz, list_packages, search, semantic_search, claim_org, get_package, embedding,
  version, yank, declared_graph, declared_graph_export, artifact, resolution_graph, audit,
  audit_verify, files, url, IsValid, route_spec, Chosen, select-Chosen, Fits, package_url,
  version_url, IsPackage, IsVersion,
}

abbrev pub Served : List Str → RouteSpec → Type 0
Served ss found = (r : Route) × IsValid r × (ss ≡ url r) × (route_spec r ≡ found)

-- The patterns below a package and below a version.
Fits-IsPackage :
    (more : List Segment) (ss : List Str)
    → Fits (package_pattern more) ss
    → (o p : Str) × (ts : List Str) × IsPackage o p × (ss ≡ package_url o p ts) × Fits more ts
Fits-IsPackage more ss (a, ea, (b, eb, (o, c, ho, eo, (p, d, hp, ep, f)))) =
    (o, p, d, (ho, hp), cc, f)

Fits-IsVersion :
    (more : List Segment) (ss : List Str)
    → Fits (version_pattern more) ss
    → (o p v : Str) × (ts : List Str) × IsVersion o p v × (ss ≡ version_url o p v ts) × Fits more ts
Fits-IsVersion more ss f =
    let (o, p, ts, (ho, hp), e, (us, eu, (v, ws, hv, ev, g))) =
      Fits-IsPackage (lit (str "versions") ∷ bind version_segment ∷ more) ss f in
    (o, p, v, ws, (ho, hp, hv), cc, g)

-- The arms below that of the declared graph.
arms_sound_tail :
    (ss : List Str) (found : RouteSpec) → Chosen (drop 7 arms) ss found → Served ss found
unfolding arms
arms_sound_tail ss found (inl (f, e)) =
    let (o, p, v, ts, h, es, (a, ea, (b, eb, (x, c, hx, ex, g)))) =
      Fits-IsVersion (lit (str "dependency-graph") ∷ lit (str "export") ∷ bind slug ∷ []) ss f in
    (declared_graph_export o p v x, (h, hx), cc, e)
arms_sound_tail ss found (inr (inl ((a, ea, (b, eb, (d, c, hd, ed, g))), e))) =
    (artifact d, hd, cc, e)
arms_sound_tail ss found
      (inr (
        inr (
          inl (
            (a, ea, (b, eb, (o, c, ho, eo, (p, d, hp, ep, (v, q, hv, ev, (left, passed)))))),
            e,
          )))) =
    (files o p v q, ((ho, hp, hv), left, passed), cc, e)
arms_sound_tail ss found (inr (inr (inr (inl ((a, ea, (b, eb, ez)), e))))) = (search, tt, cc, e)
arms_sound_tail ss found (inr (inr (inr (inr (inl ((a, ea, (b, eb, (c, ec, ez))), e)))))) =
    (semantic_search, tt, cc, e)
arms_sound_tail ss found (inr (inr (inr (inr (inr (inl ((a, ea, (b, eb, ez)), e))))))) =
    (claim_org, tt, cc, e)
arms_sound_tail ss found
      (inr (inr (inr (inr (inr (inr (inl ((a, ea, (b, eb, (o, c, ho, eo, (d, ed, ez)))), e)))))))) =
    (audit o, ho, cc, e)
arms_sound_tail ss found
      (inr (
        inr (
          inr (
            inr (
              inr
                (inr (inr (inl ((a, ea, (b, eb, (o, c, ho, eo, (d, ed, (x, ex, ez))))), e))))))))) =
    (audit_verify o, ho, cc, e)
arms_sound_tail ss found
      (inr (
        inr (
          inr (
            inr
              (inr (inr (inr (inr (inl ((a, ea, (b, eb, (d, c, hd, ed, (x, ex, ez)))), e)))))))))) =
    (resolution_graph d, hd, cc, e)
arms_sound_tail ss found (inr (inr (inr (inr (inr (inr (inr (inr (inr none_left))))))))) =
    elim none_left [ ]

arms_sound : (ss : List Str) (found : RouteSpec) → Chosen arms ss found → Served ss found
unfolding arms
arms_sound ss found (inl ((a, ea, ez), e)) = (healthz, tt, cc, e)
arms_sound ss found (inr (inl ((a, ea, (b, eb, ez)), e))) = (list_packages, tt, cc, e)
arms_sound ss found (inr (inr (inl (f, e)))) =
    let (o, p, ts, h, es, g) = Fits-IsPackage [] ss f in (get_package o p, h, cc, e)
arms_sound ss found (inr (inr (inr (inl (f, e))))) =
    let (o, p, v, ts, h, es, g) = Fits-IsVersion [] ss f in (version o p v, h, cc, e)
arms_sound ss found (inr (inr (inr (inr (inl (f, e)))))) =
    let (o, p, v, ts, h, es, (a, ea, g)) = Fits-IsVersion (lit (str "yank") ∷ []) ss f in
    (yank o p v, h, cc, e)
arms_sound ss found (inr (inr (inr (inr (inr (inl (f, e))))))) =
    let (o, p, ts, h, es, (a, ea, g)) = Fits-IsPackage (lit (str "embedding") ∷ []) ss f in
    (embedding o p, h, cc, e)
arms_sound ss found (inr (inr (inr (inr (inr (inr (inl (f, e)))))))) =
    let (o, p, v, ts, h, es, (a, ea, g)) =
      Fits-IsVersion (lit (str "dependency-graph") ∷ []) ss f in
    (declared_graph o p v, h, cc, e)
arms_sound ss found (inr (inr (inr (inr (inr (inr (inr later))))))) = arms_sound_tail ss found later

pub select_sound :
    (ss : List Str) (found : RouteSpec) → select arms ss ≡ some found → Served ss found
select_sound ss found h = arms_sound ss found (select-Chosen arms ss found h)
