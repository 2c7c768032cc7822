-- ===== src/Auth.antt =====
-- Who may call what: llm_gateway/internal/models/api_key.go, the packages
-- llm_gateway/internal/auth and llm_gateway/internal/middleware. A header that is absent is the
-- empty text, as `Header.Get` has it. The JWT library is the parameter `validate`.
pub mod Access
pub mod Login
mod Tests
use Prim.Native.String.{slice, len}
use text.Mathlib.Text.{starts_with}
use think_pixel_llmgw.Prelude.{
  ℕ, String, str_eq, Bool, true, false, not, ◌&&◌, ◌||◌, Option, none, some, List, [], ◌∷◌, ltb, ℤ,
  if◌then◌else◌,
}

-- models.APIKey, less created_at, which nothing here reads; `rate_limit_per_minute` is an INTEGER
-- column.
pub record ApiKey {ℓ} (W : Type ℓ) : Type ℓ where
  pub id : String
  pub name : String
  pub key_hash : String
  pub allowed_models : List String
  pub rate_limit_per_minute : ℤ
  pub monthly_budget_usd : Option W
  pub enabled : Bool
  pub expires_at : Option ℕ
  pub updated_at : ℕ
  pub tags : List (String × String)

-- `slices.Contains`
unfoldable pub contains : List String → String → Bool
contains [] s = false
contains (x ∷ xs) s = if str_eq x s then true else contains xs s

-- `AllowsModel`, of an APIKey and of an APIKeyRecord, on its list of models.
unfoldable pub allows_model : List String → String → Bool
unfolding contains
allows_model [] model = true
allows_model (m ∷ ms) model = contains (m ∷ ms) model

module _ {ℓ} {W : Type ℓ} where
  unfoldable pub is_expired : ApiKey W → ℕ → Bool
  is_expired k now = elim k.expires_at [ none ↦ false | some t ↦ ltb t now ]

  unfoldable pub is_valid : ApiKey W → ℕ → Bool
  unfolding is_expired
  is_valid k now = k.enabled && not (is_expired k now)

pub record ApiKeyRecord : Type 0 where
  pub id : String
  pub name : String
  pub allowed_models : List String
  pub rate_limit_per_minute : ℤ
  pub tags : List (String × String)
  pub revoked : Bool

-- What a store's `Lookup` returns.
pub data Looked : Type 0 where
  looked_up : ApiKeyRecord → Looked
  key_not_found lookup_failed : Looked

-- What a middleware does: it answers with a status, or hands the request on.
pub data Passage {ℓ} (A : Type ℓ) : Type ℓ where
  rejected : ℕ → Passage A
  passed : A → Passage A

abbrev bearer : String
bearer = "Bearer "

-- `strings.TrimPrefix(s, "Bearer ")`
unfoldable pub trim_bearer : String → String
trim_bearer s = if starts_with s bearer then slice s (len bearer) (len s) else s

-- The headers that the middlewares read.
pub record Headers : Type 0 where
  pub x_api_key : String
  pub authorization : String

unfoldable pub presented_key : Headers → String
unfolding trim_bearer
presented_key h =
    if str_eq h.x_api_key ""
    then (if not (str_eq h.authorization "") && starts_with h.authorization bearer
        then trim_bearer h.authorization
        else "")
    else h.x_api_key

unfoldable pub answer_lookup : Looked → Passage ApiKeyRecord
answer_lookup key_not_found = rejected 401
answer_lookup lookup_failed = rejected 500
answer_lookup (looked_up k) = if k.revoked then rejected 401 else passed k

unfoldable pub api_key_middleware : (String → Looked) → Headers → Passage ApiKeyRecord
unfolding presented_key answer_lookup
api_key_middleware lookup h =
    let api_key = presented_key h in
    if str_eq api_key "" then rejected 401 else answer_lookup (lookup api_key)

-- auth.Role is a string type.
abbrev pub role_admin : String
role_admin = "admin"

abbrev pub role_viewer : String
role_viewer = "viewer"

unfoldable pub is_valid_role : String → Bool
is_valid_role r = if str_eq r role_admin then true else str_eq r role_viewer

unfoldable pub has_permission : String → String → Bool
has_permission r required = if str_eq r role_admin then true else str_eq r required

-- The inner and the outer loop of AdminJWTMiddleware over roles.
unfoldable pub permits_one : List String → String → Bool
unfolding has_permission
permits_one [] required = false
permits_one (r ∷ rs) required = if has_permission r required then true else permits_one rs required

unfoldable pub permits_any : List String → List String → Bool
unfolding permits_one
permits_any roles [] = false
permits_any roles (r ∷ rs) = if permits_one roles r then true else permits_any roles rs

pub record AdminClaims : Type 0 where
  pub admin_id : String
  pub auth_type : String
  pub roles : List String

unfoldable pub check_roles : List String → AdminClaims → Passage AdminClaims
unfolding permits_any
check_roles [] claims = passed claims
check_roles (r ∷ rs) claims =
    if permits_any claims.roles (r ∷ rs) then passed claims else rejected 403

unfoldable pub presented_token : Headers → String
presented_token h = if str_eq h.authorization "" then h.x_api_key else h.authorization

unfoldable pub admin_jwt_middleware :
    (String → Option AdminClaims) → List String → Headers → Passage AdminClaims
unfolding presented_token trim_bearer check_roles
admin_jwt_middleware validate required h =
    let token = presented_token h in
    if str_eq token "" then rejected 401 else elim (validate (trim_bearer token)) [
      | none ↦ rejected 401
      | some claims ↦ check_roles required claims
    ]

-- HasRole, on the roles of the context (`none` where there are none).
unfoldable pub has_role : Option (List String) → String → Bool
unfolding contains
has_role none role = false
has_role (some roles) role = contains roles role
