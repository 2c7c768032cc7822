-- ===== src/Pricing/Charges.antt =====
-- What `CalculateCost` of model.go charges, and what for.
use think_pixel_llmgw.Prelude.{ℕ, suc, String, ◌≡◌, none, some, List, arith, ℤ, pos, Float64}
use think_pixel_llmgw.Pricing.{
  PricingComponent, UsageRecord, direction_output, direction_cache, modality_text,
  find_pricing_component, calculate_component_cost, charge, calculate_cost,
}

module _ {ℓ} {W : Type ℓ} ⦃f : Float64 W⦄ where
  charge_absent :
      (cs : List (PricingComponent W)) (direction : String) (tokens : ℤ) (cost : W)
      → find_pricing_component cs direction modality_text ≡ none
      → charge cs direction tokens cost ≡ cost
  unfolding charge
  charge_absent cs direction tokens cost h = ground (arith, h)

  charge_present :
      (cs : List (PricingComponent W)) (direction : String) (n : ℕ) (c : PricingComponent W)
      (cost : W)
      → find_pricing_component cs direction modality_text ≡ some c
      → charge cs direction (pos (suc n)) cost
        ≡ f.plus
            (charge cs direction (pos 0) cost)
            (calculate_component_cost (some c) (pos (suc n)))
  unfolding charge
  charge_present cs direction n c cost h = ground (arith, h)

  -- A price list without a component for cached text tokens charges the same whatever the
  -- number of cached tokens is: input tokens are charged in full, the cached ones among them
  -- included.
  pub calculate_cost-cached_tokens :
      (cs : List (PricingComponent W)) (u : UsageRecord) (cached : ℤ)
      → find_pricing_component cs direction_cache modality_text ≡ none
      → calculate_cost cs (record u { cached_tokens = cached }) ≡ calculate_cost cs u
  unfolding calculate_cost
  calculate_cost-cached_tokens cs u cached none_cached = rw (
    charge_absent cs direction_cache cached _ none_cached,
    charge_absent cs direction_cache u.cached_tokens _ none_cached,
  )

  -- Reasoning tokens are charged at the output price on top of all output tokens.
  pub calculate_cost-reasoning_tokens :
      (cs : List (PricingComponent W)) (u : UsageRecord) (n : ℕ) (c : PricingComponent W)
      → find_pricing_component cs direction_output modality_text ≡ some c
      → calculate_cost cs (record u { reasoning_tokens = pos (suc n) })
        ≡ f.plus
            (calculate_cost cs (record u { reasoning_tokens = pos 0 }))
            (calculate_component_cost (some c) (pos (suc n)))
  unfolding calculate_cost
  calculate_cost-reasoning_tokens cs u n c found = charge_present cs direction_output n c _ found
