-- ===== src/Proxy/Accounting.antt =====
-- What a request is billed.
use think_pixel_llmgw.Prelude.{
  ℕ, suc, pos, arith, str_eq, String, Bool, true, false, ◌&&◌, Option, none, some, List, [], ◌∷◌,
  ◌++◌, ◌≡◌, refl, ap, ◌∙◌, inl, inr, Float64, if◌then◌else◌, Bool-cases,
}
use think_pixel_llmgw.Auth.{ApiKeyRecord}
use think_pixel_llmgw.Pricing.{
  PricingComponent, find_pricing_component, charge, calculate_component_cost, calculate_cost,
}
use think_pixel_llmgw.Billing.Worker.{BillingUpdate}
use think_pixel_llmgw.Proxy.{
  ChatCall, ChatResponse, StreamRead, Event, billed, Workers, bill, queue_usage, actual_cost,
  handle_non_streaming_response, handle_streaming_response, respond, respond_with,
}

-- The billing updates among events.
abbrev pub bills {ℓ} : {W : Type ℓ} → List (Event W) → List (BillingUpdate W)
bills [] = []
bills (billed u ∷ es) = u ∷ bills es
bills (_ ∷ es) = bills es

module _ {ℓ} {W : Type ℓ} ⦃f : Float64 W⦄ where
  -- The price of a number of tokens at a price per 1,000 tokens.
  abbrev pub per_1k : ℕ → W → W
  per_1k tokens price = f.times (f.over (f.of_int (pos tokens)) (f.of_int (pos 1000))) price

  charge_nothing :
      (components : List (PricingComponent W)) (direction : String) (cost : W)
      → charge components direction (pos 0) cost ≡ cost
  unfolding charge
  charge_nothing components direction cost = refl

  component_cost-per_1k :
      (c : PricingComponent W) (n : ℕ)
      → c.unit ≡ "1k_tokens"
      → calculate_component_cost (some c) (pos (suc n)) ≡ per_1k (suc n) c.price
  unfolding calculate_component_cost
  component_cost-per_1k c n unit =
      let is_unit : str_eq c.unit "1k_tokens" ≡ true = ap (λ u. str_eq u "1k_tokens") unit in
      ground (arith, is_unit)

  charge-per_1k :
      (components : List (PricingComponent W)) (direction : String) (c : PricingComponent W) (n : ℕ)
      (cost : W)
      → find_pricing_component components direction "text" ≡ some c
      → c.unit ≡ "1k_tokens"
      → charge components direction (pos (suc n)) cost ≡ f.plus cost (per_1k (suc n) c.price)
  unfolding charge
  charge-per_1k components direction c n cost found unit =
      let priced : charge components direction (pos (suc n)) cost
          ≡ f.plus cost (calculate_component_cost (some c) (pos (suc n))) =
        ground (arith, found) in
      priced ∙ ap (f.plus cost) (component_cost-per_1k c n unit)

  -- A thousandth of the input tokens times the input price and the same for the output tokens.
  abbrev pub cost_of : ℕ → W → ℕ → W → W
  cost_of input input_price output output_price =
      f.plus (f.plus f.nought (per_1k input input_price)) (per_1k output output_price)

  actual_cost-per_1k :
      (components : List (PricingComponent W)) (input output : PricingComponent W)
      (p : ChatResponse W) (m n : ℕ)
      → find_pricing_component components "input" "text" ≡ some input
      → find_pricing_component components "output" "text" ≡ some output
      → input.unit ≡ "1k_tokens"
      → output.unit ≡ "1k_tokens"
      → p.input_tokens ≡ pos (suc m)
      → p.output_tokens ≡ pos (suc n)
      → p.cached_tokens ≡ pos 0
      → p.reasoning_tokens ≡ pos 0
      → actual_cost (some components) p ≡ cost_of (suc m) input.price (suc n) output.price
  unfolding actual_cost calculate_cost
  actual_cost-per_1k components input output p m n has_input has_output unit unit' in_ out
        none_cached none_reasoned =
      rw (in_, out, none_cached, none_reasoned)
        (charge_nothing components "output" _
          ∙ charge_nothing components "cache" _
          ∙ charge-per_1k components "output" output n _ has_output unit'
          ∙ ap (λ c. f.plus c (per_1k (suc n) output.price))
              (charge-per_1k components "input" input m f.nought has_input unit))

module _ {ℓ} {T W : Type ℓ} ⦃f : Float64 W⦄ where
  bills-bill-usage :
      (d : Workers) (call : ChatCall T) (key : ApiKeyRecord) (model_name : String)
      (p : ChatResponse W) (cost : W)
      → bills (bill d key call.now cost ++ queue_usage d call key model_name p) ≡ (
          if f.less f.nought cost && d.billing_worker
          then record { api_key_id = key.id; cost_usd = cost; timestamp = call.now } ∷ []
          else [])
  unfolding bill queue_usage
  bills-bill-usage d call key model_name p cost =
      elim (Bool-cases (f.less f.nought cost && d.billing_worker)) [
        | inl costs ↦
            rw costs
              (elim (Bool-cases d.usage_worker) [ inl on ↦ rw on refl | inr off ↦ rw off refl ])
        | inr free ↦
            rw free
              (elim (Bool-cases d.usage_worker) [ inl on ↦ rw on refl | inr off ↦ rw off refl ])
      ]

  -- A response without a stream is billed once, to the key of the request, at the cost that the
  -- model's prices give its token counts (the provider's estimate where there are no details),
  -- if that cost is positive and there is a billing worker, and not at all otherwise.
  respond-bills :
      (d : Workers) (call : ChatCall T) (key : ApiKeyRecord) (model_name : String)
      (is_streaming : Bool) (details : Option (List (PricingComponent W))) (p : ChatResponse W)
      → p.stream ≡ none
      → bills (respond d call key model_name is_streaming details p).events ≡ (
          if f.less f.nought (actual_cost details p) && d.billing_worker
          then record {
            api_key_id = key.id;
            cost_usd = actual_cost details p;
            timestamp = call.now;
          }
            ∷ []
          else [])
  unfolding respond respond_with handle_non_streaming_response
  respond-bills d call key model_name is_streaming details p plain =
      ap (λ o. bills (respond_with d call key model_name is_streaming details p o).events) plain
      ∙ (bills-bill-usage d call key model_name p (actual_cost details p))

  -- Where the model's first default prices of text (or first of any tier) are per 1,000 tokens, a
  -- response without a stream that counts input and output tokens, and no cached and no reasoning
  -- ones, is billed once, to the key of the request, at a thousandth of the input tokens times the
  -- input price plus a thousandth of the output tokens times the output price, if that is positive
  -- and there is a billing worker, and not at all otherwise.
  pub respond-bills-per_1k :
      (d : Workers) (call : ChatCall T) (key : ApiKeyRecord) (model_name : String)
      (is_streaming : Bool) (components : List (PricingComponent W))
      (input output : PricingComponent W) (p : ChatResponse W) (m n : ℕ)
      → p.stream ≡ none
      → find_pricing_component components "input" "text" ≡ some input
      → find_pricing_component components "output" "text" ≡ some output
      → input.unit ≡ "1k_tokens"
      → output.unit ≡ "1k_tokens"
      → p.input_tokens ≡ pos (suc m)
      → p.output_tokens ≡ pos (suc n)
      → p.cached_tokens ≡ pos 0
      → p.reasoning_tokens ≡ pos 0
      → bills (respond d call key model_name is_streaming (some components) p).events ≡ (
          if f.less f.nought (cost_of (suc m) input.price (suc n) output.price) && d.billing_worker
          then record {
            api_key_id = key.id;
            cost_usd = cost_of (suc m) input.price (suc n) output.price;
            timestamp = call.now;
          }
            ∷ []
          else [])
  respond-bills-per_1k d call key model_name is_streaming components input output p m n plain
        has_input has_output unit unit' in_ out none_cached none_reasoned =
      respond-bills d call key model_name is_streaming (some components) p plain
      ∙ ap
          (λ cost.
            if f.less f.nought cost && d.billing_worker
            then record { api_key_id = key.id; cost_usd = cost; timestamp = call.now } ∷ []
            else [])
          (actual_cost-per_1k components input output p m n has_input has_output unit unit' in_ out
            none_cached none_reasoned)

  -- A response that is streamed to the client is never billed, whatever the model's prices are,
  -- provided that 0.0 is not less than 0.0.
  pub streaming-bills :
      (d : Workers) (call : ChatCall T) (key : ApiKeyRecord) (model_name : String)
      (details : Option (List (PricingComponent W))) (p : ChatResponse W) (reads : List StreamRead)
      → f.less f.nought f.nought ≡ false
      → p.stream ≡ some reads
      → bills (respond d call key model_name true details p).events ≡ []
  unfolding respond respond_with handle_streaming_response bill
  streaming-bills d call key model_name details p reads irreflexive streams =
      ap (λ o. bills (respond_with d call key model_name true details p o).events) streams
      ∙ elim (Bool-cases d.flusher) [
        | inl can ↦ rw (can, irreflexive) refl
        | inr cannot ↦ rw cannot refl
      ]
