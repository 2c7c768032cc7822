-- ===== src/Billing.antt =====
-- Costs per month and budgets, llm_gateway/internal/billing/billing.go, over the Redis server
-- `kv`. The year and the month are those of `time.Now()`. The database's answer to
-- `GetByID` is the argument `found`; `uuid.Parse` is `parse_uuid`.
pub mod Spending
pub mod Sync
pub mod Worker
mod Tests
use think_pixel_llmgw.Prelude.{
  ℕ, String, Bool, true, false, Option, none, some, Float64, ◌⊕◌, decimal, two_digits,
  if◌then◌else◌,
}
use think_pixel_llmgw.Redis.{Link, replied, refused, reply_lost, RedisValues}

unfoldable pub monthly_key : String → ℕ → ℕ → String
unfolding decimal two_digits
monthly_key api_key_id year month =
    "cost:" ⊕ api_key_id ⊕ ":" ⊕ decimal year ⊕ ":" ⊕ two_digits month

pub data BillingError : Type 0 where
  failed_add failed_get : BillingError

module _ {ℓ} {R W : Type ℓ} (kv : RedisValues R W) ⦃f : Float64 W⦄ where
  abbrev pub or_nought : Option W → W
  or_nought none = f.nought
  or_nought (some w) = w

  -- The script of `AddUsage`, which the server runs as one step.
  unfoldable pub add_script : R → String → W → R
  add_script r key cost = kv.set r key (f.plus (or_nought (kv.get r key)) cost)

  unfoldable pub add_usage : R → Link → ℕ → ℕ → String → W → R × Option BillingError
  add_usage r replied year month api_key_id cost =
      (add_script r (monthly_key api_key_id year month) cost, none)
  add_usage r refused year month api_key_id cost = (r, some failed_add)
  add_usage r reply_lost year month api_key_id cost =
      (add_script r (monthly_key api_key_id year month) cost, some failed_add)

  -- `none` is an error; a missing key is 0.
  unfoldable pub get_spending : R → Link → String → ℕ → ℕ → Option W
  get_spending r replied api_key_id year month =
      some (or_nought (kv.get r (monthly_key api_key_id year month)))
  get_spending r _ api_key_id year month = none

  unfoldable pub get_monthly_spending : R → Link → ℕ → ℕ → String → Option W
  unfolding get_spending
  get_monthly_spending r link year month api_key_id = get_spending r link api_key_id year month

  unfoldable pub reset_monthly_spending : R → Link → ℕ → ℕ → String → R
  reset_monthly_spending r refused year month api_key_id = r
  reset_monthly_spending r _ year month api_key_id = kv.del r (monthly_key api_key_id year month)

  -- On an error of Redis the request is allowed.
  abbrev pub is_below_budget : Option W → W → Bool
  is_below_budget none budget = true
  is_below_budget (some spending) budget = f.less spending budget

  pub within_configured : Option W → Option W → Bool
  within_configured none spending = true
  within_configured (some budget) spending = is_below_budget spending budget

  -- `found` is the key's MonthlyBudgetUSD, or `none` where `GetByID` fails.
  pub within_found : Option (Option W) → Option W → Bool
  unfolding within_configured
  within_found none spending = false
  within_found (some budget) spending = within_configured budget spending

  unfoldable pub within_budget :
      {U : Type 0}
      → (String → Option U)
      → (U → Option (Option W))
      → R
      → Link
      → ℕ
      → ℕ
      → String
      → Bool
  unfolding within_found
  within_budget parse_uuid found r link year month api_key_id = elim (parse_uuid api_key_id) [
    | none ↦ false
    | some id ↦ within_found (found id) (get_monthly_spending r link year month api_key_id)
  ]

-- NoopService
unfoldable pub noop_within_budget : String → Bool
noop_within_budget api_key_id = true
