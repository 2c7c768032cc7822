-- ===== src/Auth/Access.antt =====
-- Which requests the middlewares let through.
use Prim.Native.String.{slice, len}
use text.Mathlib.Text.{starts_with}
use text.Mathlib.TextEquality.{starts_with_iff}
use text.Mathlib.TextPositions.{starts_with-append, slice-append_right, len-append}
use think_pixel_llmgw.Prelude.{
  String, str_eq, eq_iff, true, false, Option, some, List, [], ◌∷◌, ◌≡◌, ◌↔◌, ◌⊎◌, inl, inr, arith,
  Bool-cases, Option-cases, ◌≢◌, ◌⊕◌, if-true, if-false, not, ◌&&◌, refl, sym, ap, ◌∙◌,
}
use think_pixel_llmgw.Auth.{
  Headers, ApiKeyRecord, Looked, passed, looked_up, key_not_found, lookup_failed, presented_key,
  answer_lookup, api_key_middleware, AdminClaims, role_admin, has_permission, permits_one,
  permits_any, check_roles, presented_token, trim_bearer, admin_jwt_middleware,
}

abbrev pub Any {ℓ} : {A : Type ℓ} → (A → Type 0) → List A → Type 0
Any P [] = ⊥
Any P (x ∷ xs) = P x ⊎ Any P xs

-- What makes a user's roles enough: one of them is admin, or is one of the required roles.
abbrev pub Permitted : List String → List String → Type 0
Permitted roles required = Any (λ need. Any (λ r. (r ≡ role_admin) ⊎ (r ≡ need)) roles) required

permits_one_iff :
    (roles : List String) (need : String)
    → (permits_one roles need ≡ true) ↔ Any (λ r. (r ≡ role_admin) ⊎ (r ≡ need)) roles
unfolding permits_one has_permission
permits_one_iff [] need = ground arith
permits_one_iff (r ∷ rs) need =
    ground (arith, permits_one_iff rs need, eq_iff r role_admin, eq_iff r need)

permits_any_iff :
    (roles required : List String) → (permits_any roles required ≡ true) ↔ Permitted roles required
unfolding permits_any
permits_any_iff roles [] = ground arith
permits_any_iff roles (need ∷ more) =
    ground (arith, permits_any_iff roles more, permits_one_iff roles need)

-- `required` is empty, or the roles are enough for it.
abbrev pub MayPass : List String → List String → Type 0
MayPass roles required = (required ≡ []) ⊎ Permitted roles required

check_roles_iff :
    (required : List String) (claims claims' : AdminClaims)
    → (check_roles required claims ≡ passed claims')
      ↔ ((claims ≡ claims') × MayPass claims.roles required)
unfolding check_roles
check_roles_iff [] claims claims' = ground arith
check_roles_iff (r ∷ rs) claims claims' = ground (arith, permits_any_iff claims.roles (r ∷ rs))

-- AdminJWTMiddleware hands a request on with claims exactly if the request has a token, the
-- validation of the token without its "Bearer " yields those claims, and either no role is
-- required or one of the claims' roles is admin or equal to a required role.
pub admin_jwt_middleware_iff :
    (validate : String → Option AdminClaims) (required : List String) (h : Headers)
    (claims : AdminClaims)
    → (admin_jwt_middleware validate required h ≡ passed claims) ↔ (
        (presented_token h ≢ "")
        × (validate (trim_bearer (presented_token h)) ≡ some claims)
        × MayPass claims.roles required)
unfolding admin_jwt_middleware
admin_jwt_middleware_iff validate required h claims =
    elim (Option-cases (validate (trim_bearer (presented_token h)))) [
      | inl bad ↦ ground (arith, bad, eq_iff (presented_token h) "")
      | inr (claims', good) ↦
          ground
            (arith, good, eq_iff (presented_token h) "", check_roles_iff required claims' claims)
    ]

answer_lookup_iff :
    (l : Looked) (k : ApiKeyRecord)
    → (answer_lookup l ≡ passed k) ↔ ((l ≡ looked_up k) × (k.revoked ≡ false))
unfolding answer_lookup
answer_lookup_iff key_not_found k = ground arith
answer_lookup_iff lookup_failed k = ground arith
answer_lookup_iff (looked_up k') k = elim (Bool-cases k'.revoked) [
  | inl revoked ↦ ground (arith, revoked)
  | inr live ↦ ground (arith, live)
]

-- The key that a request presents: X-API-Key or, where that is empty, what follows "Bearer " in
-- Authorization; never the empty text.
abbrev pub Presents : Headers → String → Type 0
Presents h key =
    (key ≢ "") × ((h.x_api_key ≡ key) ⊎ ((h.x_api_key ≡ "") × (h.authorization ≡ "Bearer " ⊕ key)))

trim_bearer-bearer : (key : String) → trim_bearer ("Bearer " ⊕ key) ≡ key
unfolding trim_bearer
trim_bearer-bearer key =
    if-true _ _ (starts_with-append "Bearer " key)
    ∙ ap (λ n. slice ("Bearer " ⊕ key) (len "Bearer ") n) (len-append "Bearer " key)
    ∙ slice-append_right "Bearer " key

after_bearer : (s : String) → starts_with s "Bearer " ≡ true → s ≡ "Bearer " ⊕ trim_bearer s
after_bearer s starts =
    let (rest, is) = (starts_with_iff s "Bearer ").0 starts in
    sym is ∙ ap (λ t. "Bearer " ⊕ t) (sym (trim_bearer-bearer rest) ∙ ap trim_bearer is)

bearer_not_empty : (key : String) → str_eq ("Bearer " ⊕ key) "" ≡ false
bearer_not_empty key = elim (Bool-cases (str_eq ("Bearer " ⊕ key) "")) [
  | inr filled ↦ filled
  | inl empty ↦
      let starts : starts_with "" "Bearer " ≡ true =
        ap (λ t. starts_with t "Bearer ") (sym ((eq_iff ("Bearer " ⊕ key) "").0 empty))
        ∙ starts_with-append "Bearer " key in
      ground (arith, starts)
]

presented_key-x : (h : Headers) → str_eq h.x_api_key "" ≡ false → presented_key h ≡ h.x_api_key
unfolding presented_key
presented_key-x h given = if-false _ _ given

presented_key-bearer :
    (h : Headers)
    → str_eq h.x_api_key "" ≡ true
    → str_eq h.authorization "" ≡ false
    → starts_with h.authorization "Bearer " ≡ true
    → presented_key h ≡ trim_bearer h.authorization
unfolding presented_key
presented_key-bearer h none_ filled starts = rw (none_, filled, starts) refl

presented_key-none :
    (h : Headers)
    → str_eq h.x_api_key "" ≡ true
    → (not (str_eq h.authorization "") && starts_with h.authorization "Bearer ") ≡ false
    → presented_key h ≡ ""
unfolding presented_key
presented_key-none h none_ other = rw (none_, other) refl

presented_key-Presents : (h : Headers) → presented_key h ≢ "" → Presents h (presented_key h)
presented_key-Presents h given = elim (Bool-cases (str_eq h.x_api_key "")) [
  | inr filled ↦ (given, inl (sym (presented_key-x h filled)))
  | inl none_ ↦
      elim (Bool-cases (not (str_eq h.authorization "") && starts_with h.authorization "Bearer ")) [
        | inr other ↦ absurd (given (presented_key-none h none_ other))
        | inl bearer ↦
            let starts : starts_with h.authorization "Bearer " ≡ true = ground (arith, bearer) in
            let filled : str_eq h.authorization "" ≡ false = ground (arith, bearer) in
            (
              given,
              inr (
                (eq_iff h.x_api_key "").0 none_,
                after_bearer h.authorization starts
                    ∙ ap (λ t. "Bearer " ⊕ t) (sym (presented_key-bearer h none_ filled starts)),
              ),
            )
      ]
]

Presents-presented_key : (h : Headers) (key : String) → Presents h key → presented_key h ≡ key
Presents-presented_key h key (given, inl is) = elim (Bool-cases (str_eq h.x_api_key "")) [
  | inr filled ↦ presented_key-x h filled ∙ is
  | inl none_ ↦ absurd (given (sym is ∙ (eq_iff h.x_api_key "").0 none_))
]
Presents-presented_key h key (given, inr (none_, is)) =
    presented_key-bearer h ((eq_iff h.x_api_key "").1 none_)
      (ap (λ t. str_eq t "") is ∙ bearer_not_empty key)
      (ap (λ t. starts_with t "Bearer ") is ∙ starts_with-append "Bearer " key)
    ∙ ap trim_bearer is
    ∙ trim_bearer-bearer key

api_key_middleware-passed :
    (lookup : String → Looked) (h : Headers) (k : ApiKeyRecord)
    → (api_key_middleware lookup h ≡ passed k)
      ↔ ((presented_key h ≢ "") × (lookup (presented_key h) ≡ looked_up k) × (k.revoked ≡ false))
unfolding api_key_middleware
api_key_middleware-passed lookup h k =
    ground (arith, eq_iff (presented_key h) "", answer_lookup_iff (lookup (presented_key h)) k)

-- APIKeyMiddleware hands a request on with a record exactly if the request presents a key, in
-- X-API-Key or else after "Bearer " in Authorization, the store looks that key up as that
-- record, and the record is not revoked.
pub api_key_middleware_iff :
    (lookup : String → Looked) (h : Headers) (k : ApiKeyRecord)
    → (api_key_middleware lookup h ≡ passed k)
      ↔ ((key : String) × Presents h key × (lookup key ≡ looked_up k) × (k.revoked ≡ false))
api_key_middleware_iff lookup h k = (
  λ through.
      let (given, found, live) = (api_key_middleware-passed lookup h k).0 through in
      (presented_key h, presented_key-Presents h given, found, live),
  λ (key, presents, found, live).
      let is = Presents-presented_key h key presents in
      (api_key_middleware-passed lookup h k).1
        ((λ e. presents.0 (sym is ∙ e)), ap lookup is ∙ found, live),
)
