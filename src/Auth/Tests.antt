-- ===== src/Auth/Tests.antt =====
-- The theorems on the middlewares at concrete requests.
use think_pixel_llmgw.Prelude.{
  String, str_eq, ◌≡◌, ◌≢◌, ◌↔◌, refl, false, Option, none, some, [], ◌∷◌, pos, if◌then◌else◌,
}
use think_pixel_llmgw.Auth.{
  Headers, ApiKeyRecord, Looked, looked_up, key_not_found, passed, AdminClaims, presented_token,
  trim_bearer, api_key_middleware, admin_jwt_middleware,
}
use think_pixel_llmgw.Prelude.{Bool, true, ◌⊕◌}
use think_pixel_llmgw.Auth.Login.{
  AdminUser, AdminToken, LoginClaims, Account, account, no_account, logged_in,
  generate_admin_jwt_with_password, generate_admin_jwt_with_token,
}
use think_pixel_llmgw.Auth.Login.Grants.{
  UserMayLogin, ServiceMayLogin, generate_admin_jwt_with_password_iff,
  generate_admin_jwt_with_token_iff,
}
use think_pixel_llmgw.Auth.Access.{
  MayPass, Presents, admin_jwt_middleware_iff, api_key_middleware_iff,
}

abbrev demo_key : ApiKeyRecord
demo_key = record {
  id = "demo-key-id";
  name = "Demo Key";
  allowed_models = [];
  rate_limit_per_minute = pos 60;
  tags = ("env", "dev") ∷ [];
  revoked = false;
}

abbrev store : String → Looked
store key = if str_eq key "demo-key" then looked_up demo_key else key_not_found

abbrev bearer_headers : Headers
bearer_headers = record { x_api_key = ""; authorization = "Bearer demo-key" }

abbrev viewer_claims : AdminClaims
viewer_claims = record { admin_id = "1"; auth_type = "user"; roles = "viewer" ∷ [] }

abbrev validate : String → Option AdminClaims
validate token = if str_eq token "demo-key" then some viewer_claims else none

api_key_middleware_example : (api_key_middleware store bearer_headers ≡ passed demo_key) ↔ (
    (key : String) × Presents bearer_headers key
    × (store key ≡ looked_up demo_key)
    × (demo_key.revoked ≡ false))
api_key_middleware_example = api_key_middleware_iff store bearer_headers demo_key

admin_jwt_middleware_example :
    (admin_jwt_middleware validate ("admin" ∷ "viewer" ∷ []) bearer_headers ≡ passed viewer_claims)
    ↔ ((presented_token bearer_headers ≢ "")
        × (validate (trim_bearer (presented_token bearer_headers)) ≡ some viewer_claims)
        × MayPass viewer_claims.roles ("admin" ∷ "viewer" ∷ []))
admin_jwt_middleware_example =
    admin_jwt_middleware_iff validate ("admin" ∷ "viewer" ∷ []) bearer_headers viewer_claims

bearer_test : api_key_middleware store bearer_headers ≡ passed demo_key
unfolding api_key_middleware
bearer_test = refl

abbrev admin_user : AdminUser
admin_user = record {
  id = "1";
  email = "a@b.c";
  password_hash = "#secret";
  roles = "admin" ∷ [];
  enabled = true;
}

abbrev users : String → Account AdminUser
users email = if str_eq email "a@b.c" then account admin_user else no_account

abbrev admin_token : AdminToken
admin_token = record {
  id = "2";
  service_name = "ci";
  token_hash = "#secret";
  roles = "viewer" ∷ [];
  enabled = true;
  expires_at = none;
}

abbrev services : String → Account AdminToken
services name = if str_eq name "ci" then account admin_token else no_account

abbrev verify_hash : String → String → Option Bool
verify_hash secret hash = some (str_eq ("#" ⊕ secret) hash)

abbrev sign_id : LoginClaims → Option String
sign_id claims = some claims.admin_id

generate_admin_jwt_with_password_example :
    (generate_admin_jwt_with_password verify_hash sign_id 5000000000 users "a@b.c" "secret"
      ≡ logged_in "1" 86405)
    ↔ UserMayLogin verify_hash sign_id 5000000000 "secret" "1" 86405 (account admin_user)
generate_admin_jwt_with_password_example =
    generate_admin_jwt_with_password_iff verify_hash sign_id 5000000000 users "a@b.c" "secret" "1"
      86405

generate_admin_jwt_with_token_example :
    (generate_admin_jwt_with_token verify_hash sign_id 5000000000 services "ci" "secret"
      ≡ logged_in "2" 86405)
    ↔ ServiceMayLogin verify_hash sign_id 5000000000 "secret" "2" 86405 (account admin_token)
generate_admin_jwt_with_token_example =
    generate_admin_jwt_with_token_iff verify_hash sign_id 5000000000 services "ci" "secret" "2"
      86405
