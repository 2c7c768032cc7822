-- ===== src/Queue/DeadLetter/Retry.antt =====
-- `RetryDeadLetterItem` moves a dead letter back to the queue.
use think_pixel_llmgw.Prelude.{
  ◌<◌, String, str_eq, eq_refl, ◌≡◌, refl, ap, ◌∙◌, true, false, none, some, List, [], ◌∷◌, ◌++◌,
  arith, length, take, if-true, if-false,
}
use think_pixel_llmgw.Queue.{DeadLetterItem, Ready, channel}
use think_pixel_llmgw.Queue.Memory.{MemoryQueue, enqueue}
use think_pixel_llmgw.Queue.DeadLetter.{
  MemoryDeadLetterQueue, list, without_first, remove, find_letter, retry_dead_letter_item,
}

module _ {ℓ} {A : Type ℓ} where
  abbrev pub HasNot : String → List (DeadLetterItem A) → Type 0
  HasNot id [] = Unit
  HasNot id (d ∷ ds) = (str_eq d.id id ≡ false) × HasNot id ds

  take_all : (l : List (DeadLetterItem A)) → take (length l) l ≡ l
  take_all [] = refl
  take_all (d ∷ ds) = ap (λ l. d ∷ l) (take_all ds)

  find_letter-append :
      (before : List (DeadLetterItem A)) (d : DeadLetterItem A) (after : List (DeadLetterItem A))
      → HasNot d.id before
      → find_letter d.id (before ++ d ∷ after) ≡ some d
  unfolding find_letter
  find_letter-append [] d after h = if-true _ _ (eq_refl d.id)
  find_letter-append (b ∷ before) d after h =
      if-false _ _ h.0 ∙ find_letter-append before d after h.1

  without_first-append :
      (before : List (DeadLetterItem A)) (d : DeadLetterItem A) (after : List (DeadLetterItem A))
      → HasNot d.id before
      → without_first d.id (before ++ d ∷ after) ≡ some (before ++ after)
  unfolding without_first
  without_first-append [] d after h = if-true _ _ (eq_refl d.id)
  without_first-append (b ∷ before) d after h = rw (h.0, without_first-append before d after h.1)

  -- Both queues open, room in the channel: the retry of an id moves the first letter with that
  -- id to the end of the queue, leaves the other letters in their order, and reports no error.
  pub retry_dead_letter_item_lem :
      (queue : MemoryQueue A) (before : List (DeadLetterItem A)) (d : DeadLetterItem A)
      (after : List (DeadLetterItem A))
      → queue.closed ≡ false
      → length queue.items < queue.capacity
      → HasNot d.id before
      → retry_dead_letter_item
          (record {
            queue = queue;
            dlq = some (record { items = before ++ d ∷ after; closed = false });
          })
          channel
          d.id
        ≡ (
          record {
            queue = record queue { items = queue.items ++ d.item ∷ [] };
            dlq = some (record { items = before ++ after; closed = false });
          },
          none,
        )
  unfolding retry_dead_letter_item list enqueue remove
  retry_dead_letter_item_lem queue before d after is_open room h = ground (
    arith,
    take_all (before ++ d ∷ after),
    find_letter-append before d after h,
    without_first-append before d after h,
  )

  -- With the queue closed a retry leaves both queues as they were, whatever the id.
  pub retry_keeps_letters :
      (queue : MemoryQueue A) (dlq : MemoryDeadLetterQueue A) (pick : Ready) (id : String)
      → queue.closed ≡ true
      → (retry_dead_letter_item (record { queue = queue; dlq = some dlq }) pick id).0
        ≡ record { queue = queue; dlq = some dlq }
  unfolding retry_dead_letter_item list enqueue
  retry_keeps_letters queue dlq pick id is_closed = ground arith
