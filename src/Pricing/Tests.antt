-- ===== src/Pricing/Tests.antt =====
-- The theorems on prices at a price list of three components, in whole micro-units.
use think_pixel_llmgw.Prelude.{
  ℕ, String, ◌≡◌, refl, Option, none, some, List, [], ◌∷◌, pos, whole_float,
}
use think_pixel_llmgw.Pricing.{
  PricingComponent, UsageRecord, direction_input, direction_output, modality_text, unit_token,
  find_pricing_component, calculate_cost, charge,
}
use think_pixel_llmgw.Pricing.Selection.{first_where, find_pricing_component_lem}

abbrev component : String → String → Option String → ℕ → PricingComponent ℕ
component direction unit tier price = record {
  id = "c";
  model_id = "m";
  code = "code";
  direction = direction;
  modality = modality_text;
  unit = unit;
  tier = tier;
  scope = none;
  price = price;
}

abbrev prices : List (PricingComponent ℕ)
prices =
    component direction_output unit_token (some "batch") 2
    ∷ component direction_input unit_token none 3
    ∷ component direction_output unit_token (some "default") 5
    ∷ []

abbrev usage : UsageRecord
usage = record {
  id = "u";
  api_key_id = "k";
  request_id = "r";
  model_name = "m";
  endpoint = "/v1/chat/completions";
  input_tokens = pos 10;
  output_tokens = pos 20;
  cached_tokens = pos 4;
  reasoning_tokens = pos 7;
  response_time_ms = 12;
  status_code = 200;
}

find_pricing_component_example :
    find_pricing_component prices direction_output modality_text
    ≡ some (component direction_output unit_token (some "default") 5)
unfolding first_where
find_pricing_component_example = find_pricing_component_lem prices direction_output modality_text

-- 10 input tokens at 3, 20 output tokens and 7 reasoning tokens at 5.
calculate_cost_test : calculate_cost prices usage ≡ 165
unfolding calculate_cost charge
calculate_cost_test = refl
