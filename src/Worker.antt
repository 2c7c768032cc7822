-- ===== src/Worker.antt =====
-- The retry loop of the two queue workers: `processItem` of
-- llm_gateway/internal/billing/billing_queue_worker.go and of
-- llm_gateway/internal/storage/usage_queue_worker.go, over the call that it repeats.
-- A time.Duration is a 64-bit number of nanoseconds; a negative one does not sleep.
pub mod Loop
mod Tests
use think_pixel_llmgw.Prelude.{
  ℕ, zero, suc, ◌+◌, ◌-◌, ◌*◌, ◌%◌, ◌^◌, Option, none, some, Bool, ltb, if◌then◌else◌,
}

-- `RetryBackoff * time.Duration(1<<uint(attempt-1))`, for attempt > 0, as the time slept.
unfoldable pub backoff_sleep : ℕ → ℕ → ℕ
backoff_sleep retry_backoff attempt =
    let d = (retry_backoff * (2 ^ (attempt - 1) % 2 ^ 64)) % 2 ^ 64 in
    if ltb d (2 ^ 63) then d else 0

-- `if attempt > 0 { ...; time.Sleep(backoff) }`
unfoldable pub sleep_before : ℕ → ℕ → ℕ
sleep_before retry_backoff zero = 0
sleep_before retry_backoff (suc n) = backoff_sleep retry_backoff (suc n)

-- How a loop ended: the state, the last error (`none` is success), the time slept, the calls made.
pub record Retried {ℓ κ} (S : Type ℓ) (E : Type κ) : Type (ℓ ⊔ κ) where
  pub state : S
  pub last_error : Option E
  pub slept : ℕ
  pub attempts : ℕ

module _ {ℓ κ} {S : Type ℓ} {E : Type κ} (call : S → S × Option E) (retry_backoff : ℕ) where
  -- The iterations that are left, from the iteration `attempt` on.
  unfoldable pub retry_from : ℕ → ℕ → S → Option E → ℕ → Retried S E
  retry_from zero attempt s last slept = record {
    state = s;
    last_error = last;
    slept = slept;
    attempts = attempt;
  }
  retry_from (suc left) attempt s last slept =
      let slept' = slept + sleep_before retry_backoff attempt in
      let (s', outcome) = call s in
      elim outcome [
        | none ↦ record { state = s'; last_error = none; slept = slept'; attempts = suc attempt }
        | some e ↦ retry_from left (suc attempt) s' (some e) slept'
      ]

  -- `for attempt := 0; attempt <= MaxRetries; attempt++`
  unfoldable pub retry : ℕ → S → Retried S E
  retry max_retries s = retry_from (suc max_retries) 0 s none 0
