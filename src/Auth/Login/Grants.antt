-- ===== src/Auth/Login/Grants.antt =====
-- When an admin login yields which token.
use think_pixel_llmgw.Prelude.{
  ℕ, ◌+◌, ◌/◌, ◌≤◌, String, Bool, true, false, Option, none, some, ◌≡◌, ◌↔◌, arith, Bool-cases,
  Option-cases, inl, inr, sym, ap, ◌∙◌,
}
use think_pixel_llmgw.Auth.Login.{
  AdminUser, AdminToken, LoginClaims, Account, account, no_account, store_failed, logged_in,
  expiration, user_claims, token_claims, is_valid_token, issue, check_password, check_user,
  check_secret, check_token, generate_admin_jwt_with_password, generate_admin_jwt_with_token,
}

module _ (verify : String → String → Option Bool) (sign : LoginClaims → Option String)
    (now : ℕ) where
  -- The expiry, where there is one, has not passed.
  abbrev pub NotExpired : Option ℕ → Type 0
  NotExpired none = Unit
  NotExpired (some end) = now ≤ end

  day_later : expiration now / 1000000000 ≡ now / 1000000000 + 86400
  day_later = omega arith

  issue_iff :
      (claims : LoginClaims) (s : String) (e : ℕ)
      → (issue verify sign now claims ≡ logged_in s e)
        ↔ ((sign claims ≡ some s) × (expiration now / 1000000000 ≡ e))
  unfolding issue
  issue_iff claims s e = elim (Option-cases (sign claims)) [
    | inl failure ↦ ground (arith, failure)
    | inr (t, signed) ↦ ground (arith, signed)
  ]

  -- Claims that depend on when they expire are signed with an expiry a day later.
  issue-day_later :
      (claims : ℕ → LoginClaims) (s : String) (e : ℕ)
      → (issue verify sign now (claims (expiration now / 1000000000)) ≡ logged_in s e)
        ↔ ((e ≡ now / 1000000000 + 86400) × (sign (claims e) ≡ some s))
  issue-day_later claims s e = (
    λ issued.
        let (signed, at) = (issue_iff (claims (expiration now / 1000000000)) s e).0 issued in
        (sym at ∙ day_later, ap (λ t. sign (claims t)) (sym at) ∙ signed),
    λ (later, signed).
        let at = day_later ∙ sym later in
        (issue_iff (claims (expiration now / 1000000000)) s e).1
          (ap (λ t. sign (claims t)) at ∙ signed, at),
  )

  is_valid_token_iff :
      (t : AdminToken)
      → (is_valid_token t now ≡ true) ↔ ((t.enabled ≡ true) × NotExpired t.expires_at)
  unfolding is_valid_token
  is_valid_token_iff t = elim (Option-cases t.expires_at) [
    | inl never ↦ ground (arith, never)
    | inr (end, at) ↦ ground (arith, at)
  ]

  check_password_iff :
      (u : AdminUser) (o : Option Bool) (s : String) (e : ℕ)
      → (check_password verify sign now u o ≡ logged_in s e)
        ↔ ((o ≡ some true) × (issue verify sign now (user_claims u now) ≡ logged_in s e))
  unfolding check_password
  check_password_iff u none s e = ground arith
  check_password_iff u (some false) s e = ground arith
  check_password_iff u (some true) s e = ground arith

  check_secret_iff :
      (t : AdminToken) (o : Option Bool) (s : String) (e : ℕ)
      → (check_secret verify sign now t o ≡ logged_in s e) ↔ (
          (o ≡ some true)
          × (is_valid_token t now ≡ true)
          × (issue verify sign now (token_claims t now) ≡ logged_in s e))
  unfolding check_secret
  check_secret_iff t none s e = ground arith
  check_secret_iff t (some false) s e = ground arith
  check_secret_iff t (some true) s e = elim (Bool-cases (is_valid_token t now)) [
    | inl valid ↦ ground (arith, valid)
    | inr invalid ↦ ground (arith, invalid)
  ]

  -- What a user's account and password have to be for the token `s` that expires at `e`.
  abbrev pub UserMayLogin : String → String → ℕ → Account AdminUser → Type 0
  UserMayLogin password s e (account u) =
      (u.enabled ≡ true)
      × (verify password u.password_hash ≡ some true)
      × (e ≡ now / 1000000000 + 86400)
      × (sign (record {
        admin_id = u.id;
        auth_type = "user";
        roles = u.roles;
        email = u.email;
        service_name = "";
        expires_at = e;
        issued_at = now / 1000000000;
        subject = u.email;
      })
          ≡ some s)
  UserMayLogin password s e _ = ⊥

  check_user_iff :
      (password s : String) (e : ℕ) (a : Account AdminUser)
      → (check_user verify sign now password a ≡ logged_in s e) ↔ UserMayLogin password s e a
  unfolding check_user
  check_user_iff password s e no_account = ground arith
  check_user_iff password s e store_failed = ground arith
  check_user_iff password s e (account u) = elim (Bool-cases u.enabled) [
    | inl on ↦ ground (
      arith,
      on,
      check_password_iff u (verify password u.password_hash) s e,
      issue-day_later (λ t. record (user_claims u now) { expires_at = t }) s e,
    )
    | inr off ↦ ground (arith, off)
  ]

  -- A login by password yields a token exactly if the email has an account that is enabled, the
  -- password verifies against its hash, and the token is what signs that account's ID, email and
  -- roles, issued now and expiring 86,400 seconds later.
  pub generate_admin_jwt_with_password_iff :
      (get_admin_user_by_email : String → Account AdminUser) (email password s : String) (e : ℕ)
      → (generate_admin_jwt_with_password verify sign now get_admin_user_by_email email password
          ≡ logged_in s e)
        ↔ UserMayLogin password s e (get_admin_user_by_email email)
  unfolding generate_admin_jwt_with_password
  generate_admin_jwt_with_password_iff get_admin_user_by_email email password s e =
      check_user_iff password s e (get_admin_user_by_email email)

  -- What a service's token record and secret have to be for the token `s` that expires at `e`.
  abbrev pub ServiceMayLogin : String → String → ℕ → Account AdminToken → Type 0
  ServiceMayLogin token s e (account t) =
      (verify token t.token_hash ≡ some true)
      × (t.enabled ≡ true)
      × NotExpired t.expires_at
      × (e ≡ now / 1000000000 + 86400)
      × (sign (record {
        admin_id = t.id;
        auth_type = "token";
        roles = t.roles;
        email = "";
        service_name = t.service_name;
        expires_at = e;
        issued_at = now / 1000000000;
        subject = t.service_name;
      })
          ≡ some s)
  ServiceMayLogin token s e _ = ⊥

  check_token_iff :
      (token s : String) (e : ℕ) (a : Account AdminToken)
      → (check_token verify sign now token a ≡ logged_in s e) ↔ ServiceMayLogin token s e a
  unfolding check_token
  check_token_iff token s e no_account = ground arith
  check_token_iff token s e store_failed = ground arith
  check_token_iff token s e (account t) = ground (
    arith,
    check_secret_iff t (verify token t.token_hash) s e,
    is_valid_token_iff t,
    issue-day_later (λ at. record (token_claims t now) { expires_at = at }) s e,
  )

  -- A login by token yields a token exactly if the service has a record that is enabled and not
  -- expired, the secret verifies against its hash, and the token is what signs that record's ID,
  -- service name and roles, issued now and expiring 86,400 seconds later.
  pub generate_admin_jwt_with_token_iff :
      (get_admin_token_by_service_name : String → Account AdminToken)
      (service_name token s : String) (e : ℕ)
      → (generate_admin_jwt_with_token verify sign now get_admin_token_by_service_name service_name
            token
          ≡ logged_in s e)
        ↔ ServiceMayLogin token s e (get_admin_token_by_service_name service_name)
  unfolding generate_admin_jwt_with_token
  generate_admin_jwt_with_token_iff get_admin_token_by_service_name service_name token s e =
      check_token_iff token s e (get_admin_token_by_service_name service_name)
