-- ===== src/RegistryHost/Complete.antt =====
-- Every route of the machine surface is let through by the table of src/registry_host.rs.
use zed_api_server_rs.Prelude.{
  ◌≡◌, refl, ◌≢◌, Bool, true, not, some, List, [], ◌∷◌, all, is_empty, All,
}
use zed_api_server_rs.Text.{Str, str, str_eq}
use zed_api_server_rs.RegistryHost.{matches, arms, select, file_segment}
use zed_api_server_rs.RegistryHost.Surface.{
  Route, healthz, list_packages, search, semantic_search, claim_org, get_package, embedding,
  version, yank, declared_graph, declared_graph_export, artifact, resolution_graph, audit,
  audit_verify, files, url, IsValid, route_spec,
}

All-all : (p : Str → Bool) (ss : List Str) → All (λ s. p s ≡ true) ss → all p ss ≡ true
All-all p [] h = refl
All-all p (s ∷ ss) (now, later) = rw (now, All-all p ss later)

is_empty-true : (ss : List Str) → ss ≢ [] → not (is_empty ss) ≡ true
is_empty-true [] h = absurd (h refl)
is_empty-true (s ∷ ss) h = refl

pub select_complete : (r : Route) → IsValid r → select arms (url r) ≡ some (route_spec r)
unfolding select matches arms str_eq str
select_complete healthz h = refl
select_complete list_packages h = refl
select_complete search h = refl
select_complete semantic_search h = refl
select_complete claim_org h = refl
select_complete (get_package o p) (ho, hp) = rw (ho, hp)
select_complete (embedding o p) (ho, hp) = rw (ho, hp)
select_complete (version o p v) (ho, hp, hv) = rw (ho, hp, hv)
select_complete (yank o p v) (ho, hp, hv) = rw (ho, hp, hv)
select_complete (declared_graph o p v) (ho, hp, hv) = rw (ho, hp, hv)
select_complete (declared_graph_export o p v x) ((ho, hp, hv), hx) = rw (ho, hp, hv, hx)
select_complete (artifact d) h = rw h
select_complete (resolution_graph d) h = rw h
select_complete (audit o) h = rw h
select_complete (audit_verify o) h = rw h
select_complete (files o p v path) ((ho, hp, hv), left, passed) =
    rw (ho, hp, hv, is_empty-true path left, All-all file_segment path passed)
