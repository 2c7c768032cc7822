-- ===== src/Billing/Spending.antt =====
-- What a usage adds to the spending of a key in a month, and when the budget refuses the key.
use think_pixel_llmgw.Prelude.{
  ℕ, String, str_eq, eq_refl, ◌≡◌, refl, ap, ◌∙◌, Bool, true, false, ◌&&◌, Option, some, arith,
  Float64, if◌then◌else◌, if-true,
}
use think_pixel_llmgw.Redis.{Link, replied, refused, reply_lost, RedisValues}
use think_pixel_llmgw.Billing.{
  or_nought, monthly_key, add_script, add_usage, get_spending, get_monthly_spending,
  is_below_budget, within_budget,
}

-- Whether the server ran the command.
abbrev pub is_run : Link → Bool
is_run refused = false
is_run _ = true

module _ {ℓ} {R W : Type ℓ} (kv : RedisValues R W) ⦃f : Float64 W⦄ where
  -- The stored total of a key and month, 0 where there is none.
  abbrev pub total : R → String → ℕ → ℕ → W
  total r api_key_id year month = or_nought kv (kv.get r (monthly_key api_key_id year month))

  total-add_script :
      (r : R) (key j : String) (cost : W)
      → or_nought kv (kv.get (add_script kv r key cost) j) ≡ (
          if str_eq key j
          then f.plus (or_nought kv (kv.get r key)) cost
          else or_nought kv (kv.get r j))
  unfolding add_script
  total-add_script r key j cost =
      rw (kv.get-set r key j (f.plus (or_nought kv (kv.get r key)) cost)) (ground arith)

  -- AddUsage adds the cost to the total of its own Redis key and leaves every other total as it
  -- was, also where only the reply is lost; where the script does not run nothing changes.
  pub get_spending-add_usage :
      (r : R) (link : Link) (year month year' month' : ℕ) (k k' : String) (cost : W)
      → get_spending kv (add_usage kv r link year month k cost).0 replied k' year' month'
        ≡ some (
            if is_run link && str_eq (monthly_key k year month) (monthly_key k' year' month')
            then f.plus (total r k year month) cost
            else total r k' year' month')
  unfolding get_spending add_usage
  get_spending-add_usage r replied year month year' month' k k' cost =
      ap some (total-add_script r (monthly_key k year month) (monthly_key k' year' month') cost)
  get_spending-add_usage r refused year month year' month' k k' cost = refl
  get_spending-add_usage r reply_lost year month year' month' k k' cost =
      ap some (total-add_script r (monthly_key k year month) (monthly_key k' year' month') cost)

  -- For a known key with a budget the test compares what Redis gives with the budget.
  within_budget_lem :
      {U : Type 0} (parse_uuid : String → Option U) (found : U → Option (Option W)) (r : R)
      (link : Link) (year month : ℕ) (k : String) (id : U) (budget : W)
      → parse_uuid k ≡ some id
      → found id ≡ some (some budget)
      → within_budget kv parse_uuid found r link year month k
        ≡ is_below_budget kv (get_monthly_spending kv r link year month k) budget
  unfolding within_budget
  within_budget_lem parse_uuid found r link year month k id budget parsed has_budget =
      ground (arith, parsed, has_budget)

  -- Where the replies of Redis come and the key's ID parses, is found and has a budget, the key
  -- is refused right after a usage that brings its total of the month to the budget or above it.
  pub within_budget-add_usage :
      {U : Type 0} (parse_uuid : String → Option U) (found : U → Option (Option W)) (r : R)
      (year month : ℕ) (k : String) (id : U) (cost budget : W)
      → parse_uuid k ≡ some id
      → found id ≡ some (some budget)
      → f.less (f.plus (total r k year month) cost) budget ≡ false
      → within_budget kv parse_uuid found
          (add_usage kv r replied year month k cost).0
          replied
          year
          month
          k
        ≡ false
  unfolding get_monthly_spending
  within_budget-add_usage parse_uuid found r year month k id cost budget parsed has_budget over =
      let spent : get_spending kv (add_usage kv r replied year month k cost).0 replied k year month
          ≡ some (f.plus (total r k year month) cost) =
        get_spending-add_usage r replied year month year month k k cost
        ∙ ap some (if-true _ _ (eq_refl (monthly_key k year month))) in
      within_budget_lem parse_uuid found _ replied year month k id budget parsed has_budget
      ∙ ap (λ o. is_below_budget kv o budget) spent
      ∙ over
