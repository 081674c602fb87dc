-- ===== src/Access/Tests.antt =====
-- Roles and credentials on concrete tokens.
use zed_api_server_rs.Prelude.{◌≡◌, refl, false, some, none, [], ◌∷◌}
use zed_api_server_rs.Text.{Str, str}
use zed_api_server_rs.Audit.{Token}
use zed_api_server_rs.Access.{
  ok, err, unauthorized, reader, can_publish, can_manage, cannot_publish, cannot_manage,
  authorize_publish, authorize_manage, bearer_token, require_token,
}
use zed_api_server_rs.Access.Roles.{Judged, authorize-Judged}
use zed_api_server_rs.Access.Credentials.{Vetted, require_token-Vetted}

abbrev alice : Token
alice = record {
  id = 7;
  name = str "alice";
  token_hash = str "#zpkg_abc";
  org_id = some 1;
  role = str "owner";
  created_at = 0;
  expires_at = some 50;
  revoked_at = none;
}

abbrev hash : Str → Str
hash plaintext = b'#' ∷ plaintext

test-bearer_token : bearer_token (some (str "Bearer  zpkg_abc ")) ≡ some (str "zpkg_abc")
unfolding bearer_token
test-bearer_token = refl

test-expired :
    require_token hash 50 false (alice ∷ []) (some (str "Bearer zpkg_abc")) ≡ err unauthorized
unfolding require_token
test-expired = refl

authorize-Judged_example :
    Judged can_publish cannot_publish (some 1) reader 1 (authorize_publish (some 1) reader 1)
    × Judged can_manage cannot_manage (some 1) reader 1 (authorize_manage (some 1) reader 1)
    × (authorize_manage (some 1) reader 1 ≡ ok tt → authorize_publish (some 1) reader 1 ≡ ok tt)
authorize-Judged_example = authorize-Judged (some 1) reader 1

require_token-Vetted_example :
    Vetted hash 49 false (alice ∷ []) (some (str "Bearer zpkg_abc")) (ok alice)
unfolding require_token
require_token-Vetted_example =
    require_token-Vetted hash 49 false (alice ∷ []) (some (str "Bearer zpkg_abc"))
