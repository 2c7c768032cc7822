-- ===== src/Worker/Loop.antt =====
-- How often the retry loop of the workers calls, how long it sleeps, and when it gives up.
use think_pixel_llmgw.Prelude.{
  ℕ, zero, suc, ◌+◌, ◌-◌, ◌*◌, ◌%◌, ◌^◌, ◌≤◌, ◌<◌, ◌≡◌, refl, ◌∙◌, Option, none, some, arith, ltb,
  if◌then◌else◌,
}
use native.Mathlib.Nat.{add-zero, add-suc, suc-add, zero-add, pow-suc}
use think_pixel_llmgw.Worker.{backoff_sleep, sleep_before, retry_from, retry}

module _ {ℓ κ} {S : Type ℓ} {E : Type κ} (call : S → S × Option E) where
  -- The state after n calls.
  unfoldable pub after : ℕ → S → S
  after zero s = s
  after (suc n) s = after n (call s).0

  -- The first n calls fail.
  abbrev pub AllFail : ℕ → S → Type κ
  AllFail zero s = Unit
  AllFail (suc n) s = (e : E) × ((call s).1 ≡ some e) × AllFail n (call s).0

-- The sleeps before the attempts 1 to n.
pub total_backoff : ℕ → ℕ → ℕ
total_backoff retry_backoff zero = 0
total_backoff retry_backoff (suc n) =
    total_backoff retry_backoff n + backoff_sleep retry_backoff (suc n)

-- What has been slept when the iteration `attempt` begins.
slept_until : ℕ → ℕ → ℕ
slept_until retry_backoff zero = 0
slept_until retry_backoff (suc n) = total_backoff retry_backoff n

slept_until_step :
    (retry_backoff attempt : ℕ)
    → slept_until retry_backoff attempt + sleep_before retry_backoff attempt
      ≡ total_backoff retry_backoff attempt
unfolding slept_until total_backoff sleep_before
slept_until_step retry_backoff zero = omega arith
slept_until_step retry_backoff (suc n) = refl

module _ {ℓ κ} {S : Type ℓ} {E : Type κ} (call : S → S × Option E) (retry_backoff : ℕ) where
  -- One iteration that fails.
  retry_from_step :
      (left attempt : ℕ) (s : S) (last : Option E) (e : E)
      → (call s).1 ≡ some e
      → retry_from call retry_backoff (suc left) attempt s last (slept_until retry_backoff attempt)
        ≡ retry_from call retry_backoff left
            (suc attempt)
            (call s).0
            (some e)
            (slept_until retry_backoff (suc attempt))
  unfolding retry_from slept_until
  retry_from_step left attempt s last e fails =
      ground (arith, fails, slept_until_step retry_backoff attempt)

  retry_from_succeeds :
      (k left attempt : ℕ) (s : S) (last : Option E)
      → AllFail call k s
      → (call (after call k s)).1 ≡ none
      → k < left
      → retry_from call retry_backoff left attempt s last (slept_until retry_backoff attempt)
        ≡ record {
          state = (call (after call k s)).0;
          last_error = none;
          slept = total_backoff retry_backoff (attempt + k);
          attempts = suc (attempt + k);
        }
  unfolding after
  retry_from_succeeds k zero attempt s last h success lt = absurd (omega arith)
  retry_from_succeeds zero (suc left) attempt s last h success lt =
      unfold retry_from after in
      ground (arith, success, slept_until_step retry_backoff attempt, add-zero attempt)
  retry_from_succeeds (suc k) (suc left) attempt s last (e, fails, rest) success lt =
      retry_from_step left attempt s last e fails
      ∙ rw (add-suc, ← suc-add)
          (retry_from_succeeds k left (suc attempt) (call s).0 (some e) rest success (omega arith))

  retry_from_gives_up :
      (k attempt : ℕ) (s : S) (last : Option E) (e : E)
      → AllFail call k s
      → (call (after call k s)).1 ≡ some e
      → retry_from call retry_backoff (suc k) attempt s last (slept_until retry_backoff attempt)
        ≡ record {
          state = (call (after call k s)).0;
          last_error = some e;
          slept = total_backoff retry_backoff (attempt + k);
          attempts = suc (attempt + k);
        }
  unfolding after
  retry_from_gives_up zero attempt s last e h failure =
      unfold retry_from after in
      ground (arith, failure, slept_until_step retry_backoff attempt, add-zero attempt)
  retry_from_gives_up (suc k) attempt s last e (e', fails, rest) failure =
      retry_from_step (suc k) attempt s last e' fails
      ∙ rw (add-suc, ← suc-add)
          (retry_from_gives_up k (suc attempt) (call s).0 (some e') e rest failure)

  -- Where k calls fail and the next succeeds, and k is at most MaxRetries, the loop makes k + 1
  -- calls, sleeps the backoffs of the retries 1 to k, and reports success.
  pub retry_succeeds :
      (max_retries k : ℕ) (s : S)
      → AllFail call k s
      → (call (after call k s)).1 ≡ none
      → k ≤ max_retries
      → retry call retry_backoff max_retries s ≡ record {
        state = (call (after call k s)).0;
        last_error = none;
        slept = total_backoff retry_backoff k;
        attempts = suc k;
      }
  unfolding retry
  retry_succeeds max_retries k s h success le =
      unfold slept_until in
      rw zero-add at (retry_from_succeeds k (suc max_retries) 0 s none h success (omega arith))

  -- Where MaxRetries + 1 calls fail, the loop makes no more, sleeps the backoffs of the retries
  -- 1 to MaxRetries, and reports the error of the last call.
  pub retry_gives_up :
      (max_retries : ℕ) (s : S) (e : E)
      → AllFail call max_retries s
      → (call (after call max_retries s)).1 ≡ some e
      → retry call retry_backoff max_retries s ≡ record {
        state = (call (after call max_retries s)).0;
        last_error = some e;
        slept = total_backoff retry_backoff max_retries;
        attempts = suc max_retries;
      }
  unfolding retry
  retry_gives_up max_retries s e h failure =
      unfold slept_until in rw zero-add at (retry_from_gives_up max_retries 0 s none e h failure)

product_fits :
    (retry_backoff p : ℕ)
    → retry_backoff * p < 2 ^ 63
    → let d = (retry_backoff * (p % 2 ^ 64)) % 2 ^ 64 in
      (if ltb d (2 ^ 63) then d else 0) ≡ retry_backoff * p
product_fits zero p h = ground arith
product_fits (suc b) p h =
    let small : p < 2 ^ 63 = grind arith in
    let same : p % 2 ^ 64 ≡ p = omega arith in rw same (ground arith)

backoff_sleep_lem :
    (retry_backoff n : ℕ)
    → retry_backoff * 2 ^ n < 2 ^ 63
    → backoff_sleep retry_backoff (suc n) ≡ retry_backoff * 2 ^ n
unfolding backoff_sleep
backoff_sleep_lem retry_backoff n h =
    let before : suc n - 1 ≡ n = omega arith in rw before (product_fits retry_backoff (2 ^ n) h)

-- The backoff doubles: where `retry_backoff * 2 ^ n` fits a Duration, n retries sleep
-- `retry_backoff * (2 ^ n - 1)` in all.
pub total_backoff_lem :
    (retry_backoff n : ℕ)
    → retry_backoff * 2 ^ n < 2 ^ 63
    → total_backoff retry_backoff n + retry_backoff ≡ retry_backoff * 2 ^ n
unfolding total_backoff
total_backoff_lem retry_backoff zero fits = omega arith
total_backoff_lem retry_backoff (suc n) fits =
    let double : 2 ^ suc n ≡ 2 ^ n * 2 = pow-suc 2 n in
    let twice : retry_backoff * 2 ^ suc n ≡ retry_backoff * 2 ^ n + retry_backoff * 2 ^ n =
      rw double (omega arith) in
    let below : retry_backoff * 2 ^ n < 2 ^ 63 = omega arith in
    omega (
      arith,
      twice,
      total_backoff_lem retry_backoff n below,
      backoff_sleep_lem retry_backoff n below,
    )
