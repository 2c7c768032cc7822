-- ===== src/Billing/Worker.antt =====
-- The worker that applies queued costs, llm_gateway/internal/billing/billing_queue_worker.go.
-- `calls` says how the Redis calls will fare, one after another, and in which year and month
-- `time.Now()` then is; beyond its end they succeed, in the year and month given.
pub mod Settlement
pub mod Accounting
use think_pixel_llmgw.Prelude.{
  ℕ, suc, ◌+◌, String, Bool, Option, none, some, List, [], ◌∷◌, Float64, if◌then◌else◌,
}
use think_pixel_llmgw.Redis.{Link, replied, RedisValues}
use think_pixel_llmgw.Queue.{Config, Reply}
use think_pixel_llmgw.Queue.DeadLetter.{MemoryDeadLetterQueue, add}
use think_pixel_llmgw.Worker.{Retried, retry}
use think_pixel_llmgw.Billing.{BillingError, add_usage}

pub record BillingUpdate {ℓ} (W : Type ℓ) : Type ℓ where
  pub api_key_id : String
  pub cost_usd : W
  pub timestamp : ℕ

-- The dynamic types of a queue item; T is the type of JSON text, V that of any other value.
pub data QueueItem {ℓ} (W T V : Type ℓ) : Type ℓ where
  pointer value : BillingUpdate W → QueueItem W T V
  bytes raw_message : T → QueueItem W T V
  other : V → QueueItem W T V

module _ {ℓ} {W T V : Type ℓ} (marshal : V → Option T)
    (unmarshal : T → Option (BillingUpdate W)) where
  unfoldable pub unmarshal_item : QueueItem W T V → Option (BillingUpdate W)
  unmarshal_item (pointer u) = some u
  unmarshal_item (value u) = some u
  unmarshal_item (bytes t) = unmarshal t
  unmarshal_item (raw_message t) = unmarshal t
  unmarshal_item (other v) = elim (marshal v) [ none ↦ none | some t ↦ unmarshal t ]

pub record Month : Type 0 where
  pub year : ℕ
  pub month : ℕ

-- How a call of Redis fares, and its month.
abbrev pub Call : Type 0
Call = Link × Month

-- The service behind the worker: the server's state, and its next calls.
pub record Service {ℓ} (R : Type ℓ) : Type ℓ where
  pub redis : R
  pub calls : List Call

pub record BillingWorker {ℓ} (R W : Type ℓ) : Type ℓ where
  pub service : Service R
  pub dlq : Option (MemoryDeadLetterQueue (BillingUpdate W))
  pub slept : ℕ

-- An item, with the ID and the time that a dead letter made of it gets.
pub record Stamped {ℓ} (A : Type ℓ) : Type ℓ where
  pub item : A
  pub id : String
  pub now : ℕ

abbrev pub next_link : List Link → Link × List Link
next_link [] = (replied, [])
next_link (l ∷ ls) = (l, ls)

abbrev pub next_call : ℕ → ℕ → List Call → Call × List Call
next_call year month [] = ((replied, record { year = year; month = month }), [])
next_call year month (c ∷ cs) = (c, cs)

abbrev pub error_text : BillingError → String
error_text e = "failed to add usage"

unfoldable pub add_dead_letter {ℓ} :
    {W : Type ℓ}
    → Option (MemoryDeadLetterQueue (BillingUpdate W))
    → String
    → ℕ
    → BillingUpdate W
    → BillingError
    → Option (MemoryDeadLetterQueue (BillingUpdate W))
add_dead_letter none id now u e = none
add_dead_letter (some q) id now u e = some (add q id now u (error_text e)).0

module _ {ℓ} {R W : Type ℓ} where
  -- What `processItem` does behind its loop; the result says whether it returns nil.
  unfoldable pub finish :
      BillingWorker R W
      → String
      → ℕ
      → BillingUpdate W
      → Retried (Service R) BillingError
      → Option BillingError
      → BillingWorker R W × Option BillingError
  finish w id now u r none = (record w { service = r.state; slept = w.slept + r.slept }, none)
  finish w id now u r (some e) = (
    record w {
      service = r.state;
      slept = w.slept + r.slept;
      dlq = add_dead_letter w.dlq id now u e;
    },
    some e,
  )

module _ {ℓ} {R W : Type ℓ} (kv : RedisValues R W) ⦃f : Float64 W⦄ (config : Config)
    (year month : ℕ) where
  unfoldable pub service_call : BillingUpdate W → Service R → Service R × Option BillingError
  service_call u s =
      let (call, calls) = next_call year month s.calls in
      let (redis, error) =
        add_usage kv s.redis call.0 call.1.year call.1.month u.api_key_id u.cost_usd in
      (record { redis = redis; calls = calls }, error)

  unfoldable pub process_update :
      BillingWorker R W → String → ℕ → BillingUpdate W → BillingWorker R W × Option BillingError
  process_update w id now u =
      let r = retry (service_call u) config.retry_backoff config.max_retries w.service in
      finish w id now u r r.last_error

  -- An item that cannot be decoded is dropped, with an error.
  unfoldable pub process_item :
      {A : Type ℓ}
      → (A → Option (BillingUpdate W))
      → BillingWorker R W
      → Stamped A
      → BillingWorker R W
  process_item decode w x = elim (decode x.item) [
    | none ↦ w
    | some u ↦ (process_update w x.id x.now u).0
  ]

  -- The loop of `processBatch` over the items of a dequeue.
  unfoldable pub process_batch :
      {A : Type ℓ}
      → (A → Option (BillingUpdate W))
      → BillingWorker R W
      → List (Stamped A)
      → BillingWorker R W
  process_batch decode w [] = w
  process_batch decode w (x ∷ xs) = process_batch decode (process_item decode w x) xs
