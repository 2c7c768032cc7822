-- ===== src/Pricing/Selection.antt =====
-- Which component `findPricingComponent` of model.go gives.
use think_pixel_llmgw.Prelude.{
  String, ◌≡◌, refl, Bool, ◌&&◌, Option, none, some, List, [], ◌∷◌, arith, if◌then◌else◌,
}
use think_pixel_llmgw.Pricing.{
  PricingComponent, is_match, is_default_tier, keep_first, find_from, find_pricing_component,
}

-- The first element that passes a test.
unfoldable pub first_where {ℓ} : {A : Type ℓ} → (A → Bool) → List A → Option A
first_where p [] = none
first_where p (x ∷ xs) = if p x then some x else first_where p xs

abbrev pub or_else {ℓ} : {A : Type ℓ} → Option A → Option A → Option A
or_else (some a) o = some a
or_else none o = o

module _ {ℓ} {W : Type ℓ} where
  -- The direction and modality fit, and the tier is "default" or absent.
  abbrev pub is_default_match : String → String → PricingComponent W → Bool
  is_default_match direction modality c = is_match direction modality c && is_default_tier c.tier

  find_from_lem :
      (direction modality : String) (cs : List (PricingComponent W))
      (other : Option (PricingComponent W))
      → find_from direction modality cs other
        ≡ or_else
            (first_where (is_default_match direction modality) cs)
            (or_else other (first_where (is_match direction modality) cs))
  unfolding find_from first_where
  find_from_lem direction modality [] none = refl
  find_from_lem direction modality [] (some c) = refl
  find_from_lem direction modality (c ∷ cs) other = ground (
    arith,
    find_from_lem direction modality cs
        (if is_match direction modality c then keep_first other c else other),
  )

  -- The component chosen is the first whose direction and modality fit and whose tier is
  -- "default" or absent; where there is none, the first whose direction and modality fit; and
  -- nothing where none fits.
  pub find_pricing_component_lem :
      (cs : List (PricingComponent W)) (direction modality : String)
      → find_pricing_component cs direction modality
        ≡ or_else
            (first_where (is_default_match direction modality) cs)
            (first_where (is_match direction modality) cs)
  unfolding find_pricing_component
  find_pricing_component_lem cs direction modality = find_from_lem direction modality cs none
