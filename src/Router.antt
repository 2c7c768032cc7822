-- ===== src/Router.antt =====
-- The routes, registerRoutes of llm_gateway/internal/httpapi/router.go: which handler runs for a
-- request, behind which middleware. ServeMux, which finds the pattern of a path, is outside the
-- model: the pattern is an argument. Of the path two more arguments are known: whether it ends in
-- "/regenerate", and its parts, `strings.Split(strings.Trim(path, "/"), "/")`.
pub mod Guards
mod Tests
use think_pixel_llmgw.Prelude.{
  ℕ, String, str_eq, Bool, true, false, ◌&&◌, Option, none, some, List, [], ◌∷◌, if◌then◌else◌,
}
use think_pixel_llmgw.Auth.{
  Headers, AdminClaims, ApiKeyRecord, Looked, Passage, rejected, passed, admin_jwt_middleware,
  api_key_middleware, role_admin, role_viewer,
}

pub data Method : Type 0 where
  get post put delete : Method
  other_method : Method

-- What the admin API manages.
pub data Resource : Type 0 where
  api_keys providers models aliases : Resource

-- The patterns that are registered.
pub data Pattern : Type 0 where
  chat_completions health metrics : Pattern
  admin_login admin_token admin_test : Pattern
  collection : Resource → Pattern
  item : Resource → Pattern

-- The handlers.
pub data Handler : Type 0 where
  handle_chat health_check metrics_handler : Handler
  login token_auth test_protected : Handler
  list create get_by_id update delete_item : Resource → Handler
  regenerate : Handler

-- What serves a request: a handler, open or behind a middleware, or an answer.
pub data Route : Type 0 where
  public : Handler → Route
  with_api_key : Handler → Route
  with_admin : List String → Handler → Route
  method_not_allowed : Route

unfoldable pub collection_route : Resource → Method → Route
collection_route r get = with_admin (role_viewer ∷ []) (list r)
collection_route r post = with_admin (role_admin ∷ []) (create r)
collection_route r put = method_not_allowed
collection_route r delete = method_not_allowed
collection_route r other_method = method_not_allowed

unfoldable pub item_route : Resource → Method → Route
item_route r get = with_admin (role_viewer ∷ []) (get_by_id r)
item_route r post = method_not_allowed
item_route r put = with_admin (role_admin ∷ []) (update r)
item_route r delete = with_admin (role_admin ∷ []) (delete_item r)
item_route r other_method = method_not_allowed

-- `strings.HasSuffix(r.URL.Path, "/regenerate") && r.Method == http.MethodPost`, for API keys only.
unfoldable pub api_key_route : Bool → Method → Route
unfolding item_route
api_key_route true post = with_admin (role_admin ∷ []) regenerate
api_key_route true get = item_route api_keys get
api_key_route true put = item_route api_keys put
api_key_route true delete = item_route api_keys delete
api_key_route true other_method = item_route api_keys other_method
api_key_route false m = item_route api_keys m

unfoldable pub route : Pattern → Bool → Method → Route
unfolding collection_route api_key_route item_route
route chat_completions ends m = with_api_key handle_chat
route health ends m = public health_check
route metrics ends m = public metrics_handler
route admin_login ends m = public login
route admin_token ends m = public token_auth
route admin_test ends m = with_admin [] test_protected
route (collection r) ends m = collection_route r m
route (item api_keys) ends m = api_key_route ends m
route (item providers) ends m = item_route providers m
route (item models) ends m = item_route models m
route (item aliases) ends m = item_route aliases m

abbrev pub is_key_details : Handler → Bool
is_key_details (get_by_id api_keys) = true
is_key_details _ = false

-- `len(pathParts) == 4 && pathParts[3] == "regenerate"`
unfoldable pub is_regenerate : List String → Bool
is_regenerate [] = false
is_regenerate (a ∷ []) = false
is_regenerate (a ∷ b ∷ []) = false
is_regenerate (a ∷ b ∷ c ∷ []) = false
is_regenerate (a ∷ b ∷ c ∷ d ∷ []) = str_eq d "regenerate"
is_regenerate (a ∷ b ∷ c ∷ d ∷ e ∷ parts) = false

-- The handler that does the work: GetByID of the API keys hands such a path to Regenerate, which
-- looks neither at the method nor at the roles.
unfoldable pub performed : List String → Handler → Handler
unfolding is_regenerate
performed parts h = if is_key_details h && is_regenerate parts then regenerate else h

-- What a handler finds in the request's context.
pub data Caller : Type 0 where
  anyone : Caller
  key_caller : ApiKeyRecord → Caller
  admin_caller : AdminClaims → Caller

pub data Served : Type 0 where
  runs : Handler → Caller → Served
  answers : ℕ → Served

abbrev pub run_as {ℓ} : {A : Type ℓ} → Handler → (A → Caller) → Passage A → Served
run_as h caller (rejected status) = answers status
run_as h caller (passed a) = runs h (caller a)

unfoldable pub serve : (String → Looked) → (String → Option AdminClaims) → Headers → Route → Served
serve lookup validate hs (public h) = runs h anyone
serve lookup validate hs (with_api_key h) = run_as h key_caller (api_key_middleware lookup hs)
serve lookup validate hs (with_admin roles h) =
    run_as h admin_caller (admin_jwt_middleware validate roles hs)
serve lookup validate hs method_not_allowed = answers 405

-- The request, from its pattern on.
unfoldable pub serve_http :
    (String → Looked) → (String → Option AdminClaims) → Pattern → Bool → Method → Headers → Served
unfolding route serve
serve_http lookup validate p ends m hs = serve lookup validate hs (route p ends m)

abbrev pub perform : List String → Served → Served
perform parts (runs h caller) = runs (performed parts h) caller
perform parts (answers status) = answers status

-- The request, down to the handler that does the work.
unfoldable pub handle_request :
    (String → Looked)
    → (String → Option AdminClaims)
    → Pattern
    → Bool
    → List String
    → Method
    → Headers
    → Served
unfolding serve_http performed
handle_request lookup validate p ends parts m hs =
    perform parts (serve_http lookup validate p ends m hs)
