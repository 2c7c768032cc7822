-- ===== src/Worker/Tests.antt =====
-- The theorems on the retry loop at calls that fail a number of times.
use think_pixel_llmgw.Prelude.{ℕ, zero, suc, ◌≡◌, refl, Option, none, some, arith, String}
use think_pixel_llmgw.Worker.{retry}
use think_pixel_llmgw.Worker.Loop.{after, total_backoff, retry_succeeds}

-- A service that fails as often as its state says.
abbrev flaky : ℕ → ℕ × Option String
flaky zero = (0, none)
flaky (suc n) = (n, some "refused")

retry_succeeds_example :
    retry flaky 100 3 2
    ≡ record { state = 0; last_error = none; slept = total_backoff 100 2; attempts = 3 }
unfolding after
retry_succeeds_example =
    retry_succeeds flaky 100 3 2 2 ("refused", refl, ("refused", refl, tt)) refl (omega arith)
