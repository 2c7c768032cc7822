-- ===== src/Billing/Tests.antt =====
-- The theorems on billing at a server that is a function, in whole micro-units.
use think_pixel_llmgw.Prelude.{
  ℕ, zero, suc, String, pos, negsuc, ◌++◌, map, ◌≡◌, refl, false, Option, none, some, List, [], ◌∷◌,
  whole_float,
}
use think_pixel_llmgw.Billing.Sync.{
  is_space, scan_word, scan_int, Scanned, scanned, completed, sync_to_database,
}
use think_pixel_llmgw.Billing.Sync.Failure.{pages, failures, failure, sync_to_database-fails}
use think_pixel_llmgw.Redis.{replied, refused, function_values}
use think_pixel_llmgw.Queue.{default_config, DeadLetterItem}
use think_pixel_llmgw.Billing.{add_usage, within_budget}
use think_pixel_llmgw.Billing.Spending.{within_budget-add_usage}
use think_pixel_llmgw.Billing.Worker.{
  BillingUpdate, BillingWorker, Call, Month, Stamped, process_update, process_batch,
}
use think_pixel_llmgw.Billing.Worker.Accounting.{process_batch-Settles, lost_replies_overcount}
use think_pixel_llmgw.Billing.Worker.Settlement.{Settles, applied_in, all_lost, open_with}

abbrev empty_server : String → Option ℕ
empty_server k = none

abbrev update : ℕ → BillingUpdate ℕ
update cost = record { api_key_id = "k"; cost_usd = cost; timestamp = 0 }

abbrev worker : List Call → BillingWorker (String → Option ℕ) ℕ
worker calls = record {
  service = record { redis = empty_server; calls = calls };
  dlq = some (record { items = []; closed = false });
  slept = 0;
}

-- The items 0 cannot be decoded; any other is a cost.
abbrev decode : ℕ → Option (BillingUpdate ℕ)
decode zero = none
decode (suc n) = some (update (suc n))

abbrev stamped : ℕ → Stamped ℕ
stamped n = record { item = n; id = "d"; now = 0 }

abbrev batch : List (Stamped ℕ)
batch = stamped 5 ∷ stamped 0 ∷ stamped 7 ∷ []

abbrev november : Month
november = record { year = 2025; month = 11 }

abbrev december : Month
december = record { year = 2025; month = 12 }

-- The month changes while the batch is processed.
abbrev refusals : List Call
refusals =
    (refused, november)
    ∷ (replied, november)
    ∷ (refused, november)
    ∷ (refused, december)
    ∷ (refused, december)
    ∷ (refused, december)
    ∷ []

abbrev OfThatYear : Month → Type 0
OfThatYear m = m.year ≡ 2025

within_budget_example :
    within_budget function_values {U = String}
      (λ s. some s)
      (λ id. some (some 25))
      (add_usage function_values empty_server replied 2025 11 "k" 30).0
      replied
      2025
      11
      "k"
    ≡ false
within_budget_example =
    within_budget-add_usage function_values {U = String} (λ s. some s) (λ id. some (some 25))
      empty_server 2025 11 "k" "k" 30 25 refl refl refl

abbrev processed : BillingWorker (String → Option ℕ) ℕ
processed =
    process_batch function_values (default_config "billing") 2025 12 decode (worker refusals) batch

process_batch-Settles_example :
    (ds' : List (DeadLetterItem (BillingUpdate ℕ))) × (processed.dlq ≡ open_with ds')
    × Settles function_values OfThatYear decode batch empty_server [] processed.service.redis ds'
process_batch-Settles_example =
    process_batch-Settles function_values (default_config "billing") 2025 12 OfThatYear refl decode
      (worker refusals) batch [] refl (refl, (refl, (refl, (refl, (refl, (refl, tt))))))

abbrev months : List Month
months = november ∷ november ∷ november ∷ december ∷ []

lost_replies_overcount_example :
    (process_update function_values
      (default_config "billing")
      2025
      12
      (worker (all_lost months))
      "d"
      0
      (update 5)).0.service.redis
    ≡ applied_in function_values months empty_server (update 5)
unfolding default_config
lost_replies_overcount_example =
    lost_replies_overcount function_values (default_config "billing") 2025 12
      (worker (all_lost months)) "d" 0 (update 5) months refl refl

abbrev november_key : Scanned (String → Option ℕ)
november_key = record {
  key = "cost:k:2025:11";
  redis = (add_usage function_values empty_server replied 2025 11 "k" 30).0;
  link = replied;
}

abbrev december_key : Scanned (String → Option ℕ)
december_key = record november_key { key = "cost:k:2025:12" }

sync_to_database_example :
    sync_to_database function_values {U = String}
      (λ s. some s)
      (pages ((november_key ∷ [], 16) ∷ []) ++ scanned (december_key ∷ []) 0 ∷ [])
    ≡ (failures ((november_key ∷ [], 16) ∷ []) ++ map failure (december_key ∷ []), completed)
sync_to_database_example =
    sync_to_database-fails function_values {U = String} (λ s. some s) ((november_key ∷ [], 16) ∷ [])
      (december_key ∷ []) []

scan_word_test : scan_word (" " ∷ "a" ∷ ":" ∷ " " ∷ "b" ∷ []) ≡ some ("a:", " " ∷ "b" ∷ [])
unfolding scan_word is_space
scan_word_test = refl

scan_int_test : scan_int (" " ∷ "0" ∷ "1" ∷ "2" ∷ ":" ∷ []) ≡ some (pos 12, ":" ∷ [])
unfolding scan_int is_space
scan_int_test = refl

scan_int_minus_test : scan_int ("-" ∷ "7" ∷ []) ≡ some (negsuc 6, [])
unfolding scan_int is_space
scan_int_minus_test = refl

scan_int_error_test : scan_int ("x" ∷ []) ≡ none
unfolding scan_int is_space
scan_int_error_test = refl
