-- ===== src/Queue.antt =====
-- Message queues, llm_gateway/internal/queue: the shared types of queue.go and errors.go.
-- Timestamps are nanoseconds. An item is of any type (`interface{}` in the source).
pub mod Memory
pub mod DeadLetter
pub mod RedisQueue
pub mod RedisDeadLetters
mod Tests
use think_pixel_llmgw.Prelude.{ℕ, ◌*◌, ◌^◌, String, Bool, false, ℤ, pos, negsuc, ltb}

-- ErrQueueClosed, ErrItemNotFound, and the error of a cancelled context.
pub data QueueError : Type 0 where
  queue_closed item_not_found cancelled : QueueError

-- What a call gives: `waits` is a `select` that stays blocked.
pub data Reply {ℓ} (A : Type ℓ) : Type ℓ where
  ok : A → Reply A
  err : QueueError → Reply A
  waits : Reply A

-- The case that a `select` takes; where several are ready Go picks any.
pub data Ready : Type 0 where
  channel deadline done : Ready

pub record DeadLetterItem {ℓ} (A : Type ℓ) : Type ℓ where
  pub id : String
  pub item : A
  pub error : String
  pub timestamp : ℕ
  pub retries : ℕ

-- Addresses and passwords of a Redis server are left out.
pub record Config : Type 0 where
  pub batch_size : ℕ
  pub batch_timeout : ℕ
  pub max_retries : ℕ
  pub retry_backoff : ℕ
  pub use_redis : Bool
  pub queue_name : String

abbrev pub second : ℕ
second = 10 ^ 9

unfoldable pub default_config : String → Config
default_config queue_name = record {
  batch_size = 100;
  batch_timeout = 5 * second;
  max_retries = 3;
  retry_backoff = 1 * second;
  use_redis = false;
  queue_name = queue_name;
}

-- `n < maxItems`, for a count n and an `int`.
abbrev pub is_below : ℕ → ℤ → Bool
is_below n (pos m) = ltb n m
is_below n (negsuc m) = false
