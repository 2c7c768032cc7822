-- ===== src/Proxy/Admission.antt =====
-- When a chat request reaches the provider.
use think_pixel_llmgw.Prelude.{
  ℕ, String, str_eq, Bool, true, not, ◌&&◌, Option, none, some, List, [], ◌∷◌, ◌++◌, ◌≡◌, refl, sym,
  ap, ◌∙◌, inl, inr, Float64, ℤ, if◌then◌else◌, Bool-cases, Option-cases,
}
use think_pixel_llmgw.Auth.{ApiKeyRecord, allows_model}
use think_pixel_llmgw.RateLimit.{Details}
use think_pixel_llmgw.Pricing.{PricingComponent}
use think_pixel_llmgw.Proxy.{
  Payload, ChatCall, ChatResponse, Event, provider_called, Outcome, Workers, stop, or_empty,
  or_false, call_provider, check_limits, check_target, check_key, check_model, handle_chat,
  respond_with, bill, queue_usage, actual_cost, StreamRead, handle_non_streaming_response,
  handle_streaming_response,
}

-- The models that the provider was called with.
abbrev pub provider_calls {ℓ} : {W : Type ℓ} → List (Event W) → List String
provider_calls [] = []
provider_calls (provider_called m ∷ es) = m ∷ provider_calls es
provider_calls (_ ∷ es) = provider_calls es

module _ {ℓ} {W : Type ℓ} ⦃f : Float64 W⦄ where
  bill-provider_calls :
      (d : Workers) (key : ApiKeyRecord) (now : ℕ) (cost : W)
      → provider_calls (bill d key now cost) ≡ []
  unfolding bill
  bill-provider_calls d key now cost =
      elim (Bool-cases (f.less f.nought cost && d.billing_worker)) [
        | inl costs ↦ rw costs refl
        | inr free ↦ rw free refl
      ]

  no_calls :
      {T : Type ℓ} (d : Workers) (call : ChatCall T) (key : ApiKeyRecord) (model_name : String)
      (p : ChatResponse W) (cost : W)
      → provider_calls (bill d key call.now cost ++ queue_usage d call key model_name p) ≡ []
  unfolding bill queue_usage
  no_calls d call key model_name p cost =
      elim (Bool-cases (f.less f.nought cost && d.billing_worker)) [
        | inl costs ↦
            rw costs
              (elim (Bool-cases d.usage_worker) [ inl on ↦ rw on refl | inr off ↦ rw off refl ])
        | inr free ↦
            rw free
              (elim (Bool-cases d.usage_worker) [ inl on ↦ rw on refl | inr off ↦ rw off refl ])
      ]

module _ {ℓ} {T W P : Type ℓ} ⦃f : Float64 W⦄
    (resolve : String → Option (P × String × Option (List (PricingComponent W))))
    (limit : String → ℤ → Details) (within_budget : String → Bool)
    (chat : P → String → Payload T → Bool → Option (ChatResponse W)) where
  -- Whether a key may send a request on under its limits.
  abbrev pub within_limits : ApiKeyRecord → Bool
  within_limits key =
      let details = limit key.id key.rate_limit_per_minute in
      not details.error && details.allowed && within_budget key.id

  -- The model that a request is to be sent on for, if any.
  abbrev pub admitted_to :
      ApiKeyRecord → Option (P × String × Option (List (PricingComponent W))) → List String
  admitted_to key none = []
  admitted_to key (some target) =
      if allows_model key.allowed_models target.1 && within_limits key then target.1 ∷ [] else []

  abbrev pub admitted : Bool → Option ApiKeyRecord → Option (Payload T) → List String
  admitted true (some key) (some payload) =
      if str_eq (or_empty payload.model) ""
      then []
      else admitted_to key (resolve (or_empty payload.model))
  admitted _ _ _ = []

  respond-provider_calls :
      (d : Workers) (call : ChatCall T) (key : ApiKeyRecord) (model_name : String)
      (is_streaming : Bool) (details : Option (List (PricingComponent W))) (p : ChatResponse W)
      (stream : Option (List StreamRead))
      → provider_calls (respond_with d call key model_name is_streaming details p stream).events
        ≡ []
  unfolding respond_with handle_non_streaming_response handle_streaming_response
  respond-provider_calls d call key model_name is_streaming details p none =
      no_calls d call key model_name p (actual_cost details p)
  respond-provider_calls d call key model_name is_streaming details p (some reads) =
      elim (Bool-cases is_streaming) [
        | inr plain ↦ rw plain (no_calls d call key model_name p (actual_cost details p))
        | inl streams ↦ rw streams (elim (Bool-cases d.flusher) [
          | inl can ↦ rw can (bill-provider_calls d key call.now f.nought)
          | inr cannot ↦ rw cannot refl
        ])
      ]

  call_provider-calls :
      (d : Workers) (call : ChatCall T) (key : ApiKeyRecord) (payload : Payload T)
      (model_name : String) (target : P × String × Option (List (PricingComponent W)))
      → provider_calls
          (call_provider resolve limit within_budget chat d call key payload model_name
            target).events
        ≡ target.1 ∷ []
  unfolding call_provider
  call_provider-calls d call key payload model_name target =
      elim (Option-cases (chat target.0 target.1 payload (or_false payload.stream))) [
        | inl failure ↦ rw failure refl
        | inr (p, reply) ↦ rw reply (
            ap (λ ms. target.1 ∷ ms)
              (respond-provider_calls d call key model_name (or_false payload.stream) target.2 p
                p.stream))
      ]

  check_limits-calls :
      (key : ApiKeyRecord) (go : Outcome W)
      → provider_calls (check_limits resolve limit within_budget chat key go).events
        ≡ (if within_limits key then provider_calls go.events else [])
  unfolding check_limits
  check_limits-calls key go = elim (Bool-cases (limit key.id key.rate_limit_per_minute).error) [
    | inl error ↦ rw error refl
    | inr fine ↦ rw fine (elim (Bool-cases (limit key.id key.rate_limit_per_minute).allowed) [
      | inr over ↦ rw over refl
      | inl allowed ↦ rw allowed (elim (Bool-cases (within_budget key.id)) [
        | inl within ↦ rw within refl
        | inr spent ↦ rw spent refl
      ])
    ])
  ]

  check_target-calls :
      (d : Workers) (call : ChatCall T) (key : ApiKeyRecord) (payload : Payload T)
      (model_name : String) (target : Option (P × String × Option (List (PricingComponent W))))
      → provider_calls
          (check_target resolve limit within_budget chat d call key payload model_name
            target).events
        ≡ admitted_to key target
  unfolding check_target
  check_target-calls d call key payload model_name none = refl
  check_target-calls d call key payload model_name (some target) =
      elim (Bool-cases (allows_model key.allowed_models target.1)) [
        | inr forbidden ↦ rw forbidden refl
        | inl may ↦ rw may (
            check_limits-calls key _
            ∙ ap (λ ms. if within_limits key then ms else [])
                (call_provider-calls d call key payload model_name target))
      ]

  check_key-calls :
      (d : Workers) (call : ChatCall T) (key : Option ApiKeyRecord) (payload : Option (Payload T))
      → provider_calls (check_key resolve limit within_budget chat d call key payload).events
        ≡ admitted true key payload
  unfolding check_key check_model
  check_key-calls d call none payload = refl
  check_key-calls d call (some key) none = refl
  check_key-calls d call (some key) (some payload) =
      elim (Bool-cases (str_eq (or_empty payload.model) "")) [
        | inl empty ↦ rw empty refl
        | inr named ↦ rw named (
            check_target-calls d call key payload (or_empty payload.model)
              (resolve (or_empty payload.model)))
      ]

  -- handleChat calls the provider at most once: with the resolved model, if the request is a POST
  -- with a key record, a JSON body and a model that is not empty and resolves, the key allows the
  -- resolved model, the limiter answers without an error and allows the request, and the budget
  -- is not spent; in every other case it does not call the provider.
  pub handle_chat-provider_calls :
      (d : Workers) (call : ChatCall T)
      → provider_calls (handle_chat resolve limit within_budget chat d call).events
        ≡ admitted call.is_post call.api_key call.payload
  unfolding handle_chat
  handle_chat-provider_calls d call = elim (Bool-cases call.is_post) [
    | inl post ↦
        ap
          (λ b.
            provider_calls
              (if b
                then check_key resolve limit within_budget chat d call call.api_key call.payload
                else stop 405 []).events)
          post
        ∙ check_key-calls d call call.api_key call.payload
        ∙ ap (λ b. admitted b call.api_key call.payload) (sym post)
    | inr not_post ↦
        ap
          (λ b.
            provider_calls
              (if b
                then check_key resolve limit within_budget chat d call call.api_key call.payload
                else stop 405 []).events)
          not_post
        ∙ ap (λ b. admitted b call.api_key call.payload) (sym not_post)
  ]
