-- ===== src/RegistryHost/Tests.antt =====
-- The table of the source's tests, and the theorems at concrete requests.
use mathlib.Core.List.{Memᴰ}
use zed_api_server_rs.Prelude.{◌≡◌, refl, none, some, false, [], ◌∷◌}
use zed_api_server_rs.Text.{str}
use zed_api_server_rs.Text.Search.{Lacks-test}
use zed_api_server_rs.RegistryHost.{
  RouteSpec, bypass, allow, reject_route, reject_method, decide, enforce_registry_host,
  registry_route, is_registry_host, request_host,
}
use zed_api_server_rs.RegistryHost.Surface.{Route, get_package, files, route_spec}
use zed_api_server_rs.RegistryHost.Paths.{
  path_of, Reached, registry_route_complete, registry_route_sound,
}
use zed_api_server_rs.RegistryHost.Decisions.{
  Justified, decide-Justified, enforce_registry_host-forward,
}

registry_get :
    decide (some (str "registry.zpkg.net:443")) (str "GET") (str "/v1/packages/acme/http-kit")
    ≡ allow (str "get_package") false
unfolding decide str
registry_get = refl

registry_export :
    decide
      (some (str "registry.aws.zpkg.net"))
      (str "GET")
      (str "/v1/packages/acme/http-kit/versions/1.0.0/dependency-graph/export/json")
    ≡ allow (str "declared_graph_export") false
unfolding decide str
registry_export = refl

registry_files :
    decide
      (some (str "registry.zpkg.net."))
      (str "GET")
      (str "/v1/files/acme/http-kit/1.0.0/README.md")
    ≡ allow (str "files") false
unfolding decide str
registry_files = refl

account_rejected :
    decide (some (str "registry.zpkg.net")) (str "GET") (str "/v1/account/me") ≡ reject_route
unfolding decide str
account_rejected = refl

wrong_method :
    decide (some (str "registry.zpkg.net")) (str "DELETE") (str "/v1/packages/acme/http-kit")
    ≡ reject_method (str "GET, HEAD, OPTIONS")
unfolding decide str
wrong_method = refl

other_host : decide (some (str "localhost:8080")) (str "GET") (str "/v1/account/me") ≡ bypass
unfolding decide str
other_host = refl

abbrev package_route : Route
package_route = get_package (str "acme") (str "http-kit")

abbrev files_route : Route
files_route = files (str "acme") (str "http-kit") (str "1.0.0") (str "src" ∷ str "lib.rs" ∷ [])

registry_route_complete_example :
    registry_route (path_of files_route) ≡ some (route_spec files_route)
unfolding registry_route str
registry_route_complete_example =
    registry_route_complete files_route ((refl, refl, refl), (λ e. cc), (refl, (refl, tt)))
      (Lacks-test b'/' (str "src") refl, (Lacks-test b'/' (str "lib.rs") refl, tt)) refl

registry_route_sound_example :
    Reached (str "/v1/packages/acme/http-kit/") (route_spec package_route)
unfolding registry_route str
registry_route_sound_example =
    registry_route_sound (str "/v1/packages/acme/http-kit/") (route_spec package_route) refl

decide-Justified_example :
    Justified
      (str "PUT")
      (str "/v1/account/me")
      (decide (some (str "registry.zpkg.net")) (str "PUT") (str "/v1/account/me"))
unfolding is_registry_host str
decide-Justified_example =
    decide-Justified (str "registry.zpkg.net") (str "PUT") (str "/v1/account/me") refl

enforce_registry_host-forward_example :
    (found : RouteSpec) × Reached (str "/v1/packages/acme/http-kit") found
    × Memᴰ (str "GET") found.methods
unfolding enforce_registry_host request_host is_registry_host str
enforce_registry_host-forward_example =
    enforce_registry_host-forward none (some (str "registry.zpkg.net:443")) (str "GET")
      (str "/v1/packages/acme/http-kit") (str "registry.zpkg.net:443") refl refl refl
