-- ===== src/Queue/DeadLetter.antt =====
-- The dead letter queue of llm_gateway/internal/queue/memory.go, and the retry of a dead letter,
-- which llm_gateway/internal/billing/billing_queue_worker.go and
-- llm_gateway/internal/storage/usage_queue_worker.go state alike.
-- `generateID()` and `time.Now()` are the arguments `id` and `now` of `add`.
pub mod Retry
use think_pixel_llmgw.Prelude.{
  ℕ, zero, suc, String, str_eq, Bool, true, false, ◌||◌, Option, none, some, List, [], ◌∷◌, ◌++◌, ℤ,
  pos, negsuc, ltb, ◌==◌, length, take, if◌then◌else◌,
}
use think_pixel_llmgw.Queue.{
  QueueError, DeadLetterItem, Reply, ok, err, waits, Ready, queue_closed, item_not_found,
}
use think_pixel_llmgw.Queue.Memory.{MemoryQueue, enqueue}

pub record MemoryDeadLetterQueue {ℓ} (A : Type ℓ) : Type ℓ where
  pub items : List (DeadLetterItem A)
  pub closed : Bool

-- `maxItems`, or all the items where it is not positive or larger.
abbrev pub clip : ℤ → ℕ → ℕ
clip (pos n) size = if n == 0 || ltb size n then size else n
clip (negsuc n) size = size

module _ {ℓ} {A : Type ℓ} where
  pub new_memory_dead_letter_queue : MemoryDeadLetterQueue A
  new_memory_dead_letter_queue = record { items = []; closed = false }

  unfoldable pub add :
      MemoryDeadLetterQueue A → String → ℕ → A → String → MemoryDeadLetterQueue A × Reply (Unit {0})
  add q id now item error =
      let letter : DeadLetterItem A = record {
        id = id;
        item = item;
        error = error;
        timestamp = now;
        retries = 0;
      } in
      if q.closed
      then (q, err queue_closed)
      else (record q { items = q.items ++ letter ∷ [] }, ok tt)

  unfoldable pub list : MemoryDeadLetterQueue A → ℤ → Reply (List (DeadLetterItem A))
  list q max_items =
      if q.closed then err queue_closed else ok (take (clip max_items (length q.items)) q.items)

  -- The list without the first item that has the id; `none` where no item has it.
  unfoldable pub without_first : String → List (DeadLetterItem A) → Option (List (DeadLetterItem A))
  without_first id [] = none
  without_first id (d ∷ ds) =
      let rest = without_first id ds in
      if str_eq d.id id then some ds else elim rest [ none ↦ none | some r ↦ some (d ∷ r) ]

  pub remove_found :
      MemoryDeadLetterQueue A
      → Option (List (DeadLetterItem A))
      → MemoryDeadLetterQueue A × Reply (Unit {0})
  remove_found q none = (q, err item_not_found)
  remove_found q (some items) = (record q { items = items }, ok tt)

  unfoldable pub remove :
      MemoryDeadLetterQueue A → String → MemoryDeadLetterQueue A × Reply (Unit {0})
  unfolding remove_found without_first
  remove q id =
      if q.closed then (q, err queue_closed) else remove_found q (without_first id q.items)

  unfoldable pub close : MemoryDeadLetterQueue A → MemoryDeadLetterQueue A
  close q = record { items = []; closed = true }

-- The worker's queue and its dead letter queue, which may be nil.
pub record Queues {ℓ} (A : Type ℓ) : Type ℓ where
  pub queue : MemoryQueue A
  pub dlq : Option (MemoryDeadLetterQueue A)

-- The errors that `RetryDeadLetterItem` wraps or makes.
pub data RetryError : Type 0 where
  not_configured not_in_queue waiting : RetryError
  failed_list failed_enqueue failed_remove : QueueError → RetryError

module _ {ℓ} {A : Type ℓ} where
  unfoldable pub find_letter : String → List (DeadLetterItem A) → Option (DeadLetterItem A)
  find_letter id [] = none
  find_letter id (d ∷ ds) = if str_eq d.id id then some d else find_letter id ds

  pub after_remove :
      MemoryQueue A → MemoryDeadLetterQueue A × Reply (Unit {0}) → Queues A × Option RetryError
  after_remove queue (dlq, ok _) = (record { queue = queue; dlq = some dlq }, none)
  after_remove queue (dlq, err e) =
      (record { queue = queue; dlq = some dlq }, some (failed_remove e))
  after_remove queue (dlq, waits) = (record { queue = queue; dlq = some dlq }, some waiting)

  pub after_enqueue :
      MemoryDeadLetterQueue A
      → String
      → MemoryQueue A × Reply (Unit {0})
      → Queues A × Option RetryError
  unfolding after_remove
  after_enqueue dlq id (queue, ok _) = after_remove queue (remove dlq id)
  after_enqueue dlq id (queue, err e) =
      (record { queue = queue; dlq = some dlq }, some (failed_enqueue e))
  after_enqueue dlq id (queue, waits) = (record { queue = queue; dlq = some dlq }, some waiting)

  pub retry_letter :
      MemoryQueue A
      → MemoryDeadLetterQueue A
      → Ready
      → String
      → Option (DeadLetterItem A)
      → Queues A × Option RetryError
  unfolding after_enqueue
  retry_letter queue dlq pick id none =
      (record { queue = queue; dlq = some dlq }, some not_in_queue)
  retry_letter queue dlq pick id (some d) = after_enqueue dlq id (enqueue queue pick d.item)

  pub retry_listed :
      MemoryQueue A
      → MemoryDeadLetterQueue A
      → Ready
      → String
      → Reply (List (DeadLetterItem A))
      → Queues A × Option RetryError
  unfolding retry_letter find_letter
  retry_listed queue dlq pick id (ok letters) =
      retry_letter queue dlq pick id (find_letter id letters)
  retry_listed queue dlq pick id (err e) =
      (record { queue = queue; dlq = some dlq }, some (failed_list e))
  retry_listed queue dlq pick id waits = (record { queue = queue; dlq = some dlq }, some waiting)

  pub retry_configured :
      MemoryQueue A
      → Option (MemoryDeadLetterQueue A)
      → Ready
      → String
      → Queues A × Option RetryError
  unfolding retry_listed
  retry_configured queue none pick id = (record { queue = queue; dlq = none }, some not_configured)
  retry_configured queue (some dlq) pick id = retry_listed queue dlq pick id (list dlq (pos 0))

  unfoldable pub retry_dead_letter_item : Queues A → Ready → String → Queues A × Option RetryError
  unfolding retry_configured
  retry_dead_letter_item s pick id = retry_configured s.queue s.dlq pick id
