-- ===== src/Pricing.antt =====
-- Prices and the cost of a request, llm_gateway/internal/models: pricing_component.go,
-- usage_record.go and the methods of model.go. The enumerations of the source are texts, since a
-- row of the database may hold any. JSON metadata and timestamps are left out of the records: no
-- method reads them.
pub mod Selection
pub mod Charges
mod Tests
use think_pixel_llmgw.Prelude.{
  ℕ, String, str_eq, Bool, true, false, ◌&&◌, Option, none, some, List, [], ◌∷◌, ℤ, pos, negsuc,
  is_pos, mul_int, Float64, ◌==◌, if◌then◌else◌,
}

abbrev pub direction_input : String
direction_input = "input"

abbrev pub direction_output : String
direction_output = "output"

abbrev pub direction_cache : String
direction_cache = "cache"

abbrev pub modality_text : String
modality_text = "text"

abbrev pub unit_token : String
unit_token = "token"

abbrev pub unit_1k_tokens : String
unit_1k_tokens = "1k_tokens"

abbrev pub unit_character : String
unit_character = "character"

abbrev pub tier_default : String
tier_default = "default"

pub record PricingComponent {ℓ} (W : Type ℓ) : Type ℓ where
  pub id : String
  pub model_id : String
  pub code : String
  pub direction : String
  pub modality : String
  pub unit : String
  pub tier : Option String
  pub scope : Option String
  pub price : W

pub record UsageRecord : Type 0 where
  pub id : String
  pub api_key_id : String
  pub request_id : String
  pub model_name : String
  pub endpoint : String
  pub input_tokens : ℤ
  pub output_tokens : ℤ
  pub cached_tokens : ℤ
  pub reasoning_tokens : ℤ
  pub response_time_ms : ℕ
  pub status_code : ℕ

-- `component.Tier == nil || *component.Tier == "default"`
abbrev pub is_default_tier : Option String → Bool
is_default_tier none = true
is_default_tier (some t) = str_eq t tier_default

module _ {ℓ} {W : Type ℓ} where
  -- Not skipped by the loop's `continue`.
  abbrev pub is_match : String → String → PricingComponent W → Bool
  is_match direction modality c = str_eq c.direction direction && str_eq c.modality modality

  -- `else if otherComponent == nil { otherComponent = component }`
  abbrev pub keep_first :
      Option (PricingComponent W) → PricingComponent W → Option (PricingComponent W)
  keep_first none c = some c
  keep_first (some other) c = some other

  -- The loop; `other` is `otherComponent`, and a result inside the loop is `defaultComponent`
  -- with its `break`.
  pub find_from :
      String
      → String
      → List (PricingComponent W)
      → Option (PricingComponent W)
      → Option (PricingComponent W)
  find_from direction modality [] other = other
  find_from direction modality (c ∷ cs) other =
      let matched = is_match direction modality c in
      let rest = find_from direction modality cs (if matched then keep_first other c else other) in
      if matched && is_default_tier c.tier then some c else rest

  unfoldable pub find_pricing_component :
      List (PricingComponent W) → String → String → Option (PricingComponent W)
  unfolding find_from
  find_pricing_component components direction modality =
      find_from direction modality components none

abbrev pub is_zero : ℤ → Bool
is_zero (pos n) = n == 0
is_zero (negsuc n) = false

module _ {ℓ} {W : Type ℓ} ⦃f : Float64 W⦄ where
  pub component_rate : PricingComponent W → ℤ → W
  component_rate c tokens =
      if str_eq c.unit unit_1k_tokens
      then f.times (f.over (f.of_int tokens) (f.of_int (pos 1000))) c.price
      else if str_eq c.unit unit_token
      then f.times (f.of_int tokens) c.price
      else if str_eq c.unit unit_character
      then f.times (f.of_int (mul_int tokens 4)) c.price
      else f.nought

  unfoldable pub calculate_component_cost : Option (PricingComponent W) → ℤ → W
  unfolding component_rate
  calculate_component_cost none tokens = f.nought
  calculate_component_cost (some c) tokens =
      if is_zero tokens then f.nought else component_rate c tokens

  pub add_component : W → Option (PricingComponent W) → ℤ → W
  unfolding calculate_component_cost
  add_component cost none tokens = cost
  add_component cost (some c) tokens = f.plus cost (calculate_component_cost (some c) tokens)

  -- One `if` of `CalculateCost`: the tokens of a kind, at the price of a direction.
  unfoldable pub charge : List (PricingComponent W) → String → ℤ → W → W
  unfolding add_component find_pricing_component
  charge components direction tokens cost =
      if is_pos tokens
      then add_component cost (find_pricing_component components direction modality_text) tokens
      else cost

  unfoldable pub calculate_cost : List (PricingComponent W) → UsageRecord → W
  calculate_cost components u =
      let input = charge components direction_input u.input_tokens f.nought in
      let output = charge components direction_output u.output_tokens input in
      let cached = charge components direction_cache u.cached_tokens output in
      charge components direction_output u.reasoning_tokens cached
