-- ===== src/Router/Guards.antt =====
-- Who reaches which handler.
use think_pixel_llmgw.Prelude.{
  String, Bool, true, false, Option, some, List, [], ◌∷◌, ◌≡◌, ◌≢◌, ◌⊎◌, inl, inr, refl, sym, ap,
  ◌∙◌, subst, arith, eq_iff, eq_refl, if◌then◌else◌, Bool-cases, if-true, if-false, ◌&&◌,
}
use think_pixel_llmgw.Auth.{
  Headers, AdminClaims, ApiKeyRecord, Looked, looked_up, Passage, rejected, passed,
  admin_jwt_middleware, api_key_middleware, role_admin, role_viewer, presented_token, trim_bearer,
}
use think_pixel_llmgw.Auth.Access.{Any, Presents, admin_jwt_middleware_iff, api_key_middleware_iff}
use think_pixel_llmgw.Router.{
  Method, get, post, put, delete, other_method, Resource, api_keys, providers, models, aliases,
  Pattern, chat_completions, health, metrics, admin_login, admin_token, admin_test, collection,
  item, Handler, handle_chat, health_check, metrics_handler, login, token_auth, test_protected,
  list, create, get_by_id, update, delete_item, regenerate, Route, public, with_api_key, with_admin,
  method_not_allowed, collection_route, item_route, api_key_route, route, Caller, anyone,
  key_caller, admin_caller, runs, run_as, serve, performed, serve_http, perform, handle_request,
  is_key_details, is_regenerate, Served, answers,
}

-- What a handler asks for: nothing, an API key, a token, or a token with one of these roles.
pub data Need : Type 0 where
  nothing_needed api_key_needed token_needed : Need
  role_needed : String → Need

-- Handlers that change something need the role admin, those that read it viewer.
abbrev pub need_of : Handler → Need
need_of handle_chat = api_key_needed
need_of health_check = nothing_needed
need_of metrics_handler = nothing_needed
need_of login = nothing_needed
need_of token_auth = nothing_needed
need_of test_protected = token_needed
need_of (list r) = role_needed role_viewer
need_of (get_by_id r) = role_needed role_viewer
need_of (create r) = role_needed role_admin
need_of (update r) = role_needed role_admin
need_of (delete_item r) = role_needed role_admin
need_of regenerate = role_needed role_admin

-- The route of a handler asks for no more and no less than the handler needs.
abbrev pub guard_of : Need → Handler → Route
guard_of nothing_needed h = public h
guard_of api_key_needed h = with_api_key h
guard_of token_needed h = with_admin [] h
guard_of (role_needed role) h = with_admin (role ∷ []) h

-- A caller that satisfies a need.
abbrev pub IsEntitled :
    (String → Looked) → (String → Option AdminClaims) → Headers → Caller → Need → Type 0
IsEntitled lookup validate hs caller nothing_needed = caller ≡ anyone
IsEntitled lookup validate hs caller api_key_needed =
    (k : ApiKeyRecord) × (caller ≡ key_caller k)
    × ((key : String) × Presents hs key × (lookup key ≡ looked_up k) × (k.revoked ≡ false))
IsEntitled lookup validate hs caller token_needed =
    (c : AdminClaims) × (caller ≡ admin_caller c)
    × (validate (trim_bearer (presented_token hs)) ≡ some c)
IsEntitled lookup validate hs caller (role_needed role) =
    (c : AdminClaims) × (caller ≡ admin_caller c)
    × (validate (trim_bearer (presented_token hs)) ≡ some c)
    × Any (λ r. (r ≡ role_admin) ⊎ (r ≡ role)) c.roles

-- Where a pattern and a method have a handler, they have it behind its guard.
abbrev IsGuarded : Route → Type 0
IsGuarded r = (r ≡ method_not_allowed) ⊎ ((h : Handler) × (r ≡ guard_of (need_of h) h))

collection-IsGuarded : (r : Resource) (m : Method) → IsGuarded (collection_route r m)
unfolding collection_route
collection-IsGuarded r get = inr (list r, refl)
collection-IsGuarded r post = inr (create r, refl)
collection-IsGuarded r put = inl refl
collection-IsGuarded r delete = inl refl
collection-IsGuarded r other_method = inl refl

item-IsGuarded : (r : Resource) (m : Method) → IsGuarded (item_route r m)
unfolding item_route
item-IsGuarded r get = inr (get_by_id r, refl)
item-IsGuarded r post = inl refl
item-IsGuarded r put = inr (update r, refl)
item-IsGuarded r delete = inr (delete_item r, refl)
item-IsGuarded r other_method = inl refl

api_key-IsGuarded : (ends : Bool) (m : Method) → IsGuarded (api_key_route ends m)
unfolding api_key_route
api_key-IsGuarded false m = item-IsGuarded api_keys m
api_key-IsGuarded true post = inr (regenerate, refl)
api_key-IsGuarded true get = item-IsGuarded api_keys get
api_key-IsGuarded true put = item-IsGuarded api_keys put
api_key-IsGuarded true delete = item-IsGuarded api_keys delete
api_key-IsGuarded true other_method = item-IsGuarded api_keys other_method

route-IsGuarded : (p : Pattern) (ends : Bool) (m : Method) → IsGuarded (route p ends m)
unfolding route
route-IsGuarded chat_completions ends m = inr (handle_chat, refl)
route-IsGuarded health ends m = inr (health_check, refl)
route-IsGuarded metrics ends m = inr (metrics_handler, refl)
route-IsGuarded admin_login ends m = inr (login, refl)
route-IsGuarded admin_token ends m = inr (token_auth, refl)
route-IsGuarded admin_test ends m = inr (test_protected, refl)
route-IsGuarded (collection r) ends m = collection-IsGuarded r m
route-IsGuarded (item api_keys) ends m = api_key-IsGuarded ends m
route-IsGuarded (item providers) ends m = item-IsGuarded providers m
route-IsGuarded (item models) ends m = item-IsGuarded models m
route-IsGuarded (item aliases) ends m = item-IsGuarded aliases m

run_as-passed {ℓ} :
    {A : Type ℓ} (h h' : Handler) (make : A → Caller) (caller : Caller) (p : Passage A)
    → run_as h make p ≡ runs h' caller
    → (a : A) × (p ≡ passed a) × (h ≡ h') × (caller ≡ make a)
run_as-passed h h' make caller (rejected status) ran = ground (arith, ran)
run_as-passed h h' make caller (passed a) ran = (a, refl, ground (arith, ran), ground (arith, ran))

-- Four parts, the last of which is "regenerate".
abbrev pub IsRegeneratePath : List String → Type 0
IsRegeneratePath parts =
    (a : String) × (b : String) × (c : String) × (parts ≡ a ∷ b ∷ c ∷ "regenerate" ∷ [])

is_regenerate-path : (parts : List String) → is_regenerate parts ≡ true → IsRegeneratePath parts
unfolding is_regenerate
is_regenerate-path [] h = ground (arith, h)
is_regenerate-path (a ∷ []) h = ground (arith, h)
is_regenerate-path (a ∷ b ∷ []) h = ground (arith, h)
is_regenerate-path (a ∷ b ∷ c ∷ []) h = ground (arith, h)
is_regenerate-path (a ∷ b ∷ c ∷ d ∷ []) h =
    (a, b, c, ap (λ x. a ∷ b ∷ c ∷ x ∷ []) ((eq_iff d "regenerate").0 h))
is_regenerate-path (a ∷ b ∷ c ∷ d ∷ e ∷ parts) h = ground (arith, h)

key_details : (h : Handler) → is_key_details h ≡ true → h ≡ get_by_id api_keys
key_details (get_by_id api_keys) h = refl
key_details (get_by_id providers) h = ground (arith, h)
key_details (get_by_id models) h = ground (arith, h)
key_details (get_by_id aliases) h = ground (arith, h)
key_details handle_chat h = ground (arith, h)
key_details health_check h = ground (arith, h)
key_details metrics_handler h = ground (arith, h)
key_details login h = ground (arith, h)
key_details token_auth h = ground (arith, h)
key_details test_protected h = ground (arith, h)
key_details (list r) h = ground (arith, h)
key_details (create r) h = ground (arith, h)
key_details (update r) h = ground (arith, h)
key_details (delete_item r) h = ground (arith, h)
key_details regenerate h = ground (arith, h)

abbrev roles_of : Caller → List String
roles_of (admin_caller c) = c.roles
roles_of anyone = []
roles_of (key_caller k) = []

not_admin : ¬ (Any (λ r. (r ≡ role_admin) ⊎ (r ≡ role_admin)) (role_viewer ∷ []))
not_admin (inl (inl e)) = ground (arith, (eq_iff role_viewer role_admin).1 e)
not_admin (inl (inr e)) = ground (arith, (eq_iff role_viewer role_admin).1 e)
not_admin (inr nothing) = nothing

details_route :
    (ends : Bool) → api_key_route ends get ≡ with_admin (role_viewer ∷ []) (get_by_id api_keys)
unfolding api_key_route item_route
details_route true = refl
details_route false = refl

module _ (lookup : String → Looked) (validate : String → Option AdminClaims) (hs : Headers) where
  serve-IsEntitled :
      (n : Need) (h h' : Handler) (caller : Caller)
      → serve lookup validate hs (guard_of n h) ≡ runs h' caller
      → (h ≡ h') × IsEntitled lookup validate hs caller n
  unfolding serve
  serve-IsEntitled nothing_needed h h' caller ran = (ground (arith, ran), ground (arith, ran))
  serve-IsEntitled api_key_needed h h' caller ran =
      let (k, through, same, is) =
        run_as-passed h h' key_caller caller (api_key_middleware lookup hs) ran in
      (same, (k, is, (api_key_middleware_iff lookup hs k).0 through))
  serve-IsEntitled token_needed h h' caller ran =
      let (c, through, same, is) =
        run_as-passed h h' admin_caller caller (admin_jwt_middleware validate [] hs) ran in
      let (present, valid, may) = (admin_jwt_middleware_iff validate [] hs c).0 through in
      (same, (c, is, valid))
  serve-IsEntitled (role_needed role) h h' caller ran =
      let (c, through, same, is) =
        run_as-passed h h' admin_caller caller (admin_jwt_middleware validate (role ∷ []) hs) ran in
      let (present, valid, may) = (admin_jwt_middleware_iff validate (role ∷ []) hs c).0 through in
      (
        same,
        (
          c,
          is,
          valid,
          elim may [
            | inl no_role ↦ ground (arith, no_role)
            | inr (inl permitted) ↦ permitted
            | inr (inr nothing) ↦ absurd nothing
          ],
        ),
      )

  -- The handler that the route names has a caller who may run it.
  serve_http-IsEntitled :
      (p : Pattern) (ends : Bool) (m : Method) (h : Handler) (caller : Caller)
      → serve_http lookup validate p ends m hs ≡ runs h caller
      → IsEntitled lookup validate hs caller (need_of h)
  unfolding serve_http serve
  serve_http-IsEntitled p ends m h caller ran = elim (route-IsGuarded p ends m) [
    | inl not_allowed ↦ ground (arith, not_allowed, ran)
    | inr (h', guarded) ↦
        let (same, entitled) =
          serve-IsEntitled (need_of h') h' h caller
            (sym (ap (serve lookup validate hs) guarded) ∙ ran) in
        subst (λ g. IsEntitled lookup validate hs caller (need_of g)) same entitled
  ]

  perform-runs :
      (parts : List String) (s : Served) (h : Handler) (caller : Caller)
      → perform parts s ≡ runs h caller
      → (h' : Handler) × (s ≡ runs h' caller) × (performed parts h' ≡ h)
  perform-runs parts (runs h' c) h caller ran = (h', ground (arith, ran), ground (arith, ran))
  perform-runs parts (answers status) h caller ran = ground (arith, ran)

  -- Whatever the pattern, the path, the method and the headers, the handler that does the work has
  -- a caller who may run it: behind an API key a record that the store looked up and that is not
  -- revoked; behind the admin API the claims of a valid token; for a handler that creates,
  -- changes, deletes or regenerates one with the role admin, for one that reads one with the role
  -- admin or viewer. The one exception is Regenerate on a path of four parts that ends in
  -- "regenerate", whose caller may have the role viewer.
  pub handle_request-IsEntitled :
      (p : Pattern) (ends : Bool) (parts : List String) (m : Method) (h : Handler) (caller : Caller)
      → handle_request lookup validate p ends parts m hs ≡ runs h caller
      → IsEntitled lookup validate hs caller (need_of h)
        ⊎ ((h ≡ regenerate)
            × IsRegeneratePath parts
            × IsEntitled lookup validate hs caller (role_needed role_viewer))
  unfolding handle_request performed
  handle_request-IsEntitled p ends parts m h caller ran =
      let (h', at, is) = perform-runs parts (serve_http lookup validate p ends m hs) h caller ran in
      let entitled = serve_http-IsEntitled p ends m h' caller at in
      elim (Bool-cases (is_key_details h' && is_regenerate parts)) [
        | inr other ↦
            let same : h' ≡ h = sym (if-false _ _ other) ∙ is in
            inl (subst (λ g. IsEntitled lookup validate hs caller (need_of g)) same entitled)
        | inl handed ↦ inr (
          sym is ∙ if-true _ _ handed,
          is_regenerate-path parts (ground (arith, handed)),
          subst (λ g. IsEntitled lookup validate hs caller (need_of g))
              (key_details h' (ground (arith, handed))) entitled,
        )
      ]

  viewer-details :
      (c : AdminClaims) (ends : Bool)
      → presented_token hs ≢ ""
      → validate (trim_bearer (presented_token hs)) ≡ some c
      → c.roles ≡ role_viewer ∷ []
      → serve_http lookup validate (item api_keys) ends get hs
        ≡ runs (get_by_id api_keys) (admin_caller c)
  unfolding serve_http route api_key_route item_route serve
  viewer-details c ends present valid viewer =
      let passes = (admin_jwt_middleware_iff validate (role_viewer ∷ []) hs c).1 (
        present,
        valid,
        inr (
            inl (
              subst (λ rs. Any (λ r. (r ≡ role_admin) ⊎ (r ≡ role_viewer)) rs) (sym viewer)
                (inl (inr refl)))),
      ) in
      ap (serve lookup validate hs) (details_route ends)
      ∙ ap (run_as (get_by_id api_keys) admin_caller) passes

  -- A GET of an API key's path with four parts, of which the last is "regenerate", runs
  -- Regenerate for a caller whose only role is viewer, and who so has not the role that the POST
  -- route asks for.
  pub viewer-regenerates :
      (c : AdminClaims) (ends : Bool) (parts : List String)
      → presented_token hs ≢ ""
      → validate (trim_bearer (presented_token hs)) ≡ some c
      → c.roles ≡ role_viewer ∷ []
      → IsRegeneratePath parts
      → (handle_request lookup validate (item api_keys) ends parts get hs
          ≡ runs regenerate (admin_caller c))
        × ¬ (IsEntitled lookup validate hs (admin_caller c) (need_of regenerate))
  unfolding handle_request performed is_regenerate
  viewer-regenerates c ends parts present valid viewer (x, y, z, is) = (
    ap (perform parts) (viewer-details c ends present valid viewer)
        ∙ ap (λ ps. runs (performed ps (get_by_id api_keys)) (admin_caller c)) is
        ∙ ap (λ b. runs (if b then regenerate else get_by_id api_keys) (admin_caller c))
            (eq_refl "regenerate"),
    λ (c', same, _, permitted). not_admin (
        subst (λ rs. Any (λ r. (r ≡ role_admin) ⊎ (r ≡ role_admin)) rs)
          (sym (ap roles_of same) ∙ viewer) permitted),
  )
