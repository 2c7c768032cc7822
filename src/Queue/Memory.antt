-- ===== src/Queue/Memory.antt =====
-- The channel queue of llm_gateway/internal/queue/memory.go. A method holds the read lock of the
-- mutex and `Close` the write lock; a call is one step, so items that another goroutine sends
-- during a call count as sent before or after it.
pub mod Fifo
pub mod Closing
use think_pixel_llmgw.Prelude.{
  ℕ, suc, ◌*◌, ◌+◌, Bool, true, false, List, [], ◌∷◌, ◌++◌, ℤ, ltb, length, if◌then◌else◌,
}
use think_pixel_llmgw.Queue.{
  Config, Reply, ok, err, waits, Ready, channel, deadline, done, queue_closed, cancelled, is_below,
}

-- `capacity` is the size of the channel's buffer.
pub record MemoryQueue {ℓ} (A : Type ℓ) : Type ℓ where
  pub items : List A
  pub capacity : ℕ
  pub closed : Bool

module _ {ℓ} {A : Type ℓ} where
  unfoldable pub new_memory_queue : Config → MemoryQueue A
  new_memory_queue config = record { items = []; capacity = config.batch_size * 10; closed = false }

  unfoldable pub enqueue : MemoryQueue A → Ready → A → MemoryQueue A × Reply (Unit {0})
  enqueue q done item = if q.closed then (q, err queue_closed) else (q, err cancelled)
  enqueue q _ item =
      if q.closed
      then (q, err queue_closed)
      else if ltb (length q.items) q.capacity
      then (record q { items = q.items ++ item ∷ [] }, ok tt)
      else (q, waits)

  -- The loop that takes further items without blocking: what is taken, and what stays.
  unfoldable pub drain : ℤ → List A → List A → List A × List A
  drain max_items taken [] = (taken, [])
  drain max_items taken (x ∷ xs) =
      let rest = drain max_items (taken ++ x ∷ []) xs in
      if is_below (length taken) max_items then rest else (taken, x ∷ xs)

  unfoldable pub take_items : MemoryQueue A → ℤ → List A → MemoryQueue A × Reply (List A)
  unfolding drain
  take_items q max_items [] = (q, waits)
  take_items q max_items (x ∷ xs) =
      let (taken, rest) = drain max_items (x ∷ []) xs in (record q { items = rest }, ok taken)

  unfoldable pub dequeue : MemoryQueue A → Ready → ℤ → MemoryQueue A × Reply (List A)
  unfolding take_items
  dequeue q done max_items = if q.closed then (q, err queue_closed) else (q, err cancelled)
  dequeue q _ max_items = if q.closed then (q, err queue_closed) else take_items q max_items q.items

  unfoldable pub dequeue_with_timeout : MemoryQueue A → Ready → ℤ → MemoryQueue A × Reply (List A)
  unfolding take_items
  dequeue_with_timeout q channel max_items =
      if q.closed then (q, err queue_closed) else take_items q max_items q.items
  dequeue_with_timeout q deadline max_items = if q.closed then (q, err queue_closed) else (q, ok [])
  dequeue_with_timeout q done max_items =
      if q.closed then (q, err queue_closed) else (q, err cancelled)

  unfoldable pub queue_length : MemoryQueue A → Reply ℕ
  queue_length q = if q.closed then err queue_closed else ok (length q.items)

  -- Closing an open queue; a closed one stays as it is.
  unfoldable pub close : MemoryQueue A → MemoryQueue A
  close q = record q { closed = true }

-- One call of a method.
pub data QueueCall {ℓ} (A : Type ℓ) : Type ℓ where
  enqueue_call : Ready → A → QueueCall A
  dequeue_call : Ready → ℤ → QueueCall A
  timeout_call : Ready → ℤ → QueueCall A
  close_call : QueueCall A

-- A queue with the items that it has accepted and those that it has delivered, oldest first.
pub record History {ℓ} (A : Type ℓ) : Type ℓ where
  pub queue : MemoryQueue A
  pub accepted : List A
  pub delivered : List A

module _ {ℓ} {A : Type ℓ} where
  abbrev pub items_of : Reply (List A) → List A
  items_of (ok items) = items
  items_of (err _) = []
  items_of waits = []

  abbrev pub accepted_of : A → Reply (Unit {0}) → List A
  accepted_of item (ok _) = item ∷ []
  accepted_of item (err _) = []
  accepted_of item waits = []

  unfoldable pub call : History A → QueueCall A → History A
  call h (enqueue_call pick item) =
      let (q, reply) = enqueue h.queue pick item in
      record h { queue = q; accepted = h.accepted ++ accepted_of item reply }
  call h (dequeue_call pick max_items) =
      let (q, reply) = dequeue h.queue pick max_items in
      record h { queue = q; delivered = h.delivered ++ items_of reply }
  call h (timeout_call pick max_items) =
      let (q, reply) = dequeue_with_timeout h.queue pick max_items in
      record h { queue = q; delivered = h.delivered ++ items_of reply }
  call h close_call = record h { queue = close h.queue }

  unfoldable pub calls : History A → List (QueueCall A) → History A
  calls h [] = h
  calls h (c ∷ cs) = calls (call h c) cs

  abbrev pub start : Config → History A
  start config = record { queue = new_memory_queue config; accepted = []; delivered = [] }
