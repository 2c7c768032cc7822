-- ===== src/Router/Tests.antt =====
-- The theorems on the routes at one viewer.
use think_pixel_llmgw.Prelude.{
  String, eq_iff, true, Option, some, List, false, ◌⊎◌, [], ◌∷◌, ◌≡◌, ◌≢◌, refl, arith,
}
use think_pixel_llmgw.Auth.{
  Headers, AdminClaims, Looked, key_not_found, admin_jwt_middleware, presented_token, trim_bearer,
  check_roles, permits_any, permits_one, has_permission, role_viewer,
}
use think_pixel_llmgw.Router.{
  runs, answers, serve_http, serve, route, item_route, collection_route, api_key_route, item,
  collection, api_keys, get, post, get_by_id, regenerate, admin_caller, performed, handle_request,
  is_regenerate,
}
use think_pixel_llmgw.Router.Guards.{
  IsEntitled, need_of, role_needed, IsRegeneratePath, handle_request-IsEntitled, viewer-regenerates,
}

abbrev viewer : AdminClaims
viewer = record { admin_id = "u1"; auth_type = "user"; roles = role_viewer ∷ [] }

abbrev headers : Headers
headers = record { x_api_key = ""; authorization = "Bearer t" }

abbrev no_key : String → Looked
no_key k = key_not_found

abbrev validate : String → Option AdminClaims
validate t = some viewer

get_test :
    serve_http no_key validate (item api_keys) true get headers
    ≡ runs (get_by_id api_keys) (admin_caller viewer)
unfolding serve_http serve route item_route api_key_route admin_jwt_middleware presented_token
    trim_bearer check_roles permits_any permits_one has_permission
get_test = refl

post_test : serve_http no_key validate (collection api_keys) true post headers ≡ answers 403
unfolding serve_http serve route collection_route admin_jwt_middleware presented_token trim_bearer
    check_roles permits_any permits_one has_permission
post_test = refl

abbrev regenerate_path : List String
regenerate_path = "admin" ∷ "keys" ∷ "k1" ∷ "regenerate" ∷ []

details_test :
    handle_request no_key validate (item api_keys) false ("admin" ∷ "keys" ∷ "k1" ∷ []) get headers
    ≡ runs (get_by_id api_keys) (admin_caller viewer)
unfolding handle_request serve_http serve route item_route api_key_route admin_jwt_middleware
    presented_token trim_bearer check_roles permits_any permits_one has_permission performed
    is_regenerate
details_test = refl

handle_request-IsEntitled_example :
    IsEntitled no_key validate headers (admin_caller viewer) (need_of (get_by_id api_keys))
    ⊎ ((get_by_id api_keys ≡ regenerate)
        × IsRegeneratePath ("admin" ∷ "keys" ∷ "k1" ∷ [])
        × IsEntitled no_key validate headers (admin_caller viewer) (role_needed role_viewer))
handle_request-IsEntitled_example =
    handle_request-IsEntitled no_key validate headers (item api_keys) false
      ("admin" ∷ "keys" ∷ "k1" ∷ []) get (get_by_id api_keys) (admin_caller viewer) details_test

token_test : presented_token headers ≢ ""
unfolding presented_token
token_test e = ground (arith, (eq_iff "Bearer t" "").1 e)

viewer-regenerates_example :
    (handle_request no_key validate (item api_keys) true regenerate_path get headers
      ≡ runs regenerate (admin_caller viewer))
    × ¬ (IsEntitled no_key validate headers (admin_caller viewer) (need_of regenerate))
viewer-regenerates_example =
    viewer-regenerates no_key validate headers viewer true regenerate_path token_test refl refl
      ("admin", "keys", "k1", refl)
