-- ===== src/Auth/Login.antt =====
-- The admin logins: llm_gateway/internal/auth/jwt.go with llm_gateway/internal/models/admin_user.go
-- and admin_token.go. The admin store's answers, the verification of an Argon2 hash (`none` is an
-- error) and the signing are parameters. `now` is `time.Now()` in nanoseconds, read once. That the
-- store records the login is left out: its errors are ignored.
pub mod Grants
use think_pixel_llmgw.Prelude.{
  ℕ, ◌+◌, ◌/◌, ◌≤◌, String, Bool, true, false, not, ◌&&◌, Option, none, some, List, [], ◌∷◌, ltb,
  if◌then◌else◌, ◌≡◌, ◌↔◌, arith, Bool-cases, Option-cases, inl, inr, sym, ap, ◌∙◌,
}
use think_pixel_llmgw.Auth.{contains}

pub record AdminUser : Type 0 where
  pub id : String
  pub email : String
  pub password_hash : String
  pub roles : List String
  pub enabled : Bool

pub record AdminToken : Type 0 where
  pub id : String
  pub service_name : String
  pub token_hash : String
  pub roles : List String
  pub enabled : Bool
  pub expires_at : Option ℕ

-- HasRole and HasAnyRole, of a user and of a token, on the list of roles.
unfoldable pub has_any_role : List String → List String → Bool
unfolding contains
has_any_role roles [] = false
has_any_role roles (r ∷ rs) = if contains roles r then true else has_any_role roles rs

unfoldable pub is_valid_token : AdminToken → ℕ → Bool
is_valid_token t now =
    t.enabled && not (elim t.expires_at as (λ _. Bool) [ none ↦ false | some e ↦ ltb e now ])

-- AdminClaims with its RegisteredClaims.
pub record LoginClaims : Type 0 where
  pub admin_id : String
  pub auth_type : String
  pub roles : List String
  pub email : String
  pub service_name : String
  pub expires_at : ℕ
  pub issued_at : ℕ
  pub subject : String

-- What the store answers for a name.
pub data Account {ℓ} (A : Type ℓ) : Type ℓ where
  account : A → Account A
  no_account store_failed : Account A

-- The signed token with the second at which it expires, or the error.
pub data Login : Type 0 where
  logged_in : String → ℕ → Login
  invalid_credentials invalid_token disabled internal : Login

abbrev pub expiration : ℕ → ℕ
expiration now = now + 86400000000000

abbrev pub user_claims : AdminUser → ℕ → LoginClaims
user_claims u now = record {
  admin_id = u.id;
  auth_type = "user";
  roles = u.roles;
  email = u.email;
  service_name = "";
  expires_at = expiration now / 1000000000;
  issued_at = now / 1000000000;
  subject = u.email;
}

abbrev pub token_claims : AdminToken → ℕ → LoginClaims
token_claims t now = record {
  admin_id = t.id;
  auth_type = "token";
  roles = t.roles;
  email = "";
  service_name = t.service_name;
  expires_at = expiration now / 1000000000;
  issued_at = now / 1000000000;
  subject = t.service_name;
}

module _ (verify : String → String → Option Bool) (sign : LoginClaims → Option String)
    (now : ℕ) where
  -- The end of both logins.
  unfoldable pub issue : LoginClaims → Login
  issue claims = elim (sign claims) [
    | none ↦ internal
    | some t ↦ logged_in t (expiration now / 1000000000)
  ]

  unfoldable pub check_password : AdminUser → Option Bool → Login
  unfolding issue
  check_password u none = internal
  check_password u (some false) = invalid_credentials
  check_password u (some true) = issue (user_claims u now)

  unfoldable pub check_user : String → Account AdminUser → Login
  unfolding check_password
  check_user password no_account = invalid_credentials
  check_user password store_failed = internal
  check_user password (account u) =
      if u.enabled then check_password u (verify password u.password_hash) else disabled

  unfoldable pub generate_admin_jwt_with_password :
      (String → Account AdminUser) → String → String → Login
  unfolding check_user
  generate_admin_jwt_with_password get_admin_user_by_email email password =
      check_user password (get_admin_user_by_email email)

  unfoldable pub check_secret : AdminToken → Option Bool → Login
  unfolding issue is_valid_token
  check_secret t none = internal
  check_secret t (some false) = invalid_token
  check_secret t (some true) = if is_valid_token t now then issue (token_claims t now) else disabled

  unfoldable pub check_token : String → Account AdminToken → Login
  unfolding check_secret
  check_token token no_account = invalid_credentials
  check_token token store_failed = internal
  check_token token (account t) = check_secret t (verify token t.token_hash)

  unfoldable pub generate_admin_jwt_with_token :
      (String → Account AdminToken) → String → String → Login
  unfolding check_token
  generate_admin_jwt_with_token get_admin_token_by_service_name service_name token =
      check_token token (get_admin_token_by_service_name service_name)
