-- ===== src/Proxy.antt =====
-- The chat handler, llm_gateway/internal/httpapi/proxy_handler.go. What it does outside itself is
-- the list of its events, in order; the answer to the client is its status. The limiter, the
-- budget, the resolution of a model and the provider are parameters, which stand for
-- AllowWithDetails, WithinBudget, ResolveModelWithDetails and Chat. Errors of Enqueue are ignored, as in
-- the source. The request ID and the record's ID are `uuid.New()`; an API key's ID parses.
pub mod Admission
pub mod Accounting
mod Tests
use think_pixel_llmgw.Prelude.{
  ℕ, zero, suc, String, str_eq, Bool, true, false, not, ◌&&◌, Option, none, some, List, [], ◌∷◌,
  ◌++◌, ℤ, Float64, if◌then◌else◌,
}
use think_pixel_llmgw.Auth.{ApiKeyRecord, allows_model}
use think_pixel_llmgw.RateLimit.{Details}
use think_pixel_llmgw.Pricing.{PricingComponent, UsageRecord, calculate_cost}
use think_pixel_llmgw.Billing.Worker.{BillingUpdate}

-- The decoded body, and the fields of it that the handler reads: `model` and `stream` are `none`
-- where they are missing or of another type.
pub record Payload {ℓ} (T : Type ℓ) : Type ℓ where
  pub model : Option String
  pub stream : Option Bool
  pub body : T

abbrev pub or_empty : Option String → String
or_empty none = ""
or_empty (some s) = s

abbrev pub or_false : Option Bool → Bool
or_false none = false
or_false (some b) = b

-- `api_key` is what APIKeyMiddleware put into the context; `payload` is `none` for invalid JSON.
pub record ChatCall {ℓ} (T : Type ℓ) : Type ℓ where
  pub is_post : Bool
  pub api_key : Option ApiKeyRecord
  pub payload : Option (Payload T)
  pub request_id : String
  pub usage_id : String
  pub now : ℕ

-- What a Read of the stream gives: an event whose Data is nil or not, with whether the client
-- takes it; the end; or another error. The end of the list is io.EOF.
pub data StreamRead : Type 0 where
  chunk : Bool → Bool → StreamRead
  done broken : StreamRead

pub record ChatResponse {ℓ} (W : Type ℓ) : Type ℓ where
  pub status_code : ℕ
  pub stream : Option (List StreamRead)
  pub latency_ms : ℕ
  pub cost_usd : W
  pub input_tokens : ℤ
  pub output_tokens : ℤ
  pub cached_tokens : ℤ
  pub reasoning_tokens : ℤ

pub data Event {ℓ} (W : Type ℓ) : Type ℓ where
  limit_checked budget_checked : String → Event W
  provider_called : String → Event W
  -- the cost in the log record; `none` where it has an Error instead
  logged : Option W → Event W
  billed : BillingUpdate W → Event W
  usage_queued : UsageRecord → Event W
  -- the number of events sent to the client
  streamed : ℕ → Event W

-- The answer's status, and what was done for it.
pub record Outcome {ℓ} (W : Type ℓ) : Type ℓ where
  pub status : ℕ
  pub events : List (Event W)

-- The Dependencies that may be nil, and whether the writer is an http.Flusher.
pub record Workers : Type 0 where
  pub billing_worker : Bool
  pub usage_worker : Bool
  pub flusher : Bool

module _ {ℓ} {W : Type ℓ} where
  abbrev pub stop : ℕ → List (Event W) → Outcome W
  stop status events = record { status = status; events = events }

  -- The events that come before those of `o`.
  abbrev pub after : List (Event W) → Outcome W → Outcome W
  after es o = record { status = o.status; events = es ++ o.events }

  abbrev pub usage_of : ChatResponse W → UsageRecord
  usage_of p = record {
    id = "";
    api_key_id = "";
    request_id = "";
    model_name = "";
    endpoint = "";
    input_tokens = p.input_tokens;
    output_tokens = p.output_tokens;
    cached_tokens = p.cached_tokens;
    reasoning_tokens = p.reasoning_tokens;
    response_time_ms = 0;
    status_code = 0;
  }

-- The loop of handleStreamingResponse: how many events it forwards.
unfoldable pub forward : List StreamRead → ℕ
forward [] = 0
forward (done ∷ rs) = 0
forward (broken ∷ rs) = 0
forward (chunk true false ∷ rs) = 0
forward (chunk true true ∷ rs) = suc (forward rs)
forward (chunk false client ∷ rs) = forward rs

module _ {ℓ} {W : Type ℓ} ⦃f : Float64 W⦄ where
  -- `if cost > 0 && d.BillingWorker != nil { ... Enqueue ... }`
  unfoldable pub bill : Workers → ApiKeyRecord → ℕ → W → List (Event W)
  bill d key now cost =
      if f.less f.nought cost && d.billing_worker
      then billed (record { api_key_id = key.id; cost_usd = cost; timestamp = now }) ∷ []
      else []

  unfoldable pub queue_usage :
      {T : Type ℓ} → Workers → ChatCall T → ApiKeyRecord → String → ChatResponse W → List (Event W)
  queue_usage d call key model_name p =
      if d.usage_worker
      then usage_queued (record (usage_of p) {
        id = call.usage_id;
        api_key_id = key.id;
        request_id = call.request_id;
        model_name = model_name;
        endpoint = "/v1/chat/completions";
        response_time_ms = p.latency_ms;
        status_code = p.status_code;
      })
        ∷ []
      else []

  -- The model's own prices where its details are there, else the provider's estimate.
  unfoldable pub actual_cost : Option (List (PricingComponent W)) → ChatResponse W → W
  unfolding calculate_cost
  actual_cost none p = p.cost_usd
  actual_cost (some components) p = calculate_cost components (usage_of p)

  unfoldable pub handle_non_streaming_response :
      {T : Type ℓ}
      → Workers
      → ChatCall T
      → ApiKeyRecord
      → String
      → Option (List (PricingComponent W))
      → ChatResponse W
      → Outcome W
  unfolding actual_cost bill queue_usage
  handle_non_streaming_response d call key model_name details p =
      let cost = actual_cost details p in
      stop p.status_code
        (logged (some cost) ∷ (bill d key call.now cost ++ queue_usage d call key model_name p))

  -- The header, and with it the status, is out before the Flusher is looked for.
  unfoldable pub handle_streaming_response :
      {T : Type ℓ}
      → Workers
      → ChatCall T
      → ApiKeyRecord
      → List StreamRead
      → ChatResponse W
      → Outcome W
  unfolding forward bill
  handle_streaming_response d call key reads p =
      if d.flusher
      then stop p.status_code
          (streamed (forward reads) ∷ logged (some f.nought) ∷ bill d key call.now f.nought)
      else stop p.status_code []

  -- `if isStreaming && pResp.Stream != nil`
  unfoldable pub respond_with :
      {T : Type ℓ}
      → Workers
      → ChatCall T
      → ApiKeyRecord
      → String
      → Bool
      → Option (List (PricingComponent W))
      → ChatResponse W
      → Option (List StreamRead)
      → Outcome W
  unfolding handle_non_streaming_response handle_streaming_response
  respond_with d call key model_name is_streaming details p none =
      handle_non_streaming_response d call key model_name details p
  respond_with d call key model_name is_streaming details p (some reads) =
      if is_streaming
      then handle_streaming_response d call key reads p
      else handle_non_streaming_response d call key model_name details p

  unfoldable pub respond :
      {T : Type ℓ}
      → Workers
      → ChatCall T
      → ApiKeyRecord
      → String
      → Bool
      → Option (List (PricingComponent W))
      → ChatResponse W
      → Outcome W
  unfolding respond_with
  respond d call key model_name is_streaming details p =
      respond_with d call key model_name is_streaming details p p.stream

module _ {ℓ} {T W P : Type ℓ} ⦃f : Float64 W⦄
    (resolve : String → Option (P × String × Option (List (PricingComponent W))))
    (limit : String → ℤ → Details) (within_budget : String → Bool)
    (chat : P → String → Payload T → Bool → Option (ChatResponse W)) where
  -- Step 7 and what follows it.
  unfoldable pub call_provider :
      Workers
      → ChatCall T
      → ApiKeyRecord
      → Payload T
      → String
      → P × String × Option (List (PricingComponent W))
      → Outcome W
  unfolding respond
  call_provider d call key payload model_name (provider, provider_model, details) =
      let is_streaming = or_false payload.stream in
      after (provider_called provider_model ∷ [])
        (elim (chat provider provider_model payload is_streaming) [
          | none ↦ stop 502 (logged none ∷ [])
          | some p ↦ respond d call key model_name is_streaming details p
        ])

  -- Step 6: the limiter and then the budget.
  unfoldable pub check_limits : ApiKeyRecord → Outcome W → Outcome W
  check_limits key go =
      let details = limit key.id key.rate_limit_per_minute in
      after (limit_checked key.id ∷ []) (
        if details.error
        then stop 500 []
        else if not details.allowed
        then stop 429 []
        else after (budget_checked key.id ∷ [])
            (if not (within_budget key.id) then stop 402 [] else go))

  -- Step 5, on what step 4 resolved.
  unfoldable pub check_target :
      Workers
      → ChatCall T
      → ApiKeyRecord
      → Payload T
      → String
      → Option (P × String × Option (List (PricingComponent W)))
      → Outcome W
  unfolding call_provider check_limits
  check_target d call key payload model_name none = stop 400 []
  check_target d call key payload model_name (some target) =
      if allows_model key.allowed_models target.1
      then check_limits key (call_provider d call key payload model_name target)
      else stop 403 []

  -- Step 3; a model that is missing or not a text is the empty text.
  unfoldable pub check_model : Workers → ChatCall T → ApiKeyRecord → Payload T → Outcome W
  unfolding check_target
  check_model d call key payload =
      let model_name = or_empty payload.model in
      if str_eq model_name ""
      then stop 400 []
      else check_target d call key payload model_name (resolve model_name)

  -- Steps 1 and 2.
  unfoldable pub check_key :
      Workers → ChatCall T → Option ApiKeyRecord → Option (Payload T) → Outcome W
  unfolding check_model
  check_key d call none payload = stop 500 []
  check_key d call (some key) none = stop 400 []
  check_key d call (some key) (some payload) = check_model d call key payload

  unfoldable pub handle_chat : Workers → ChatCall T → Outcome W
  unfolding check_key
  handle_chat d call =
      if call.is_post then check_key d call call.api_key call.payload else stop 405 []
