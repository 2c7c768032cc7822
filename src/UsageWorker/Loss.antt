-- ===== src/UsageWorker/Loss.antt =====
-- The usage worker loses no record.
use think_pixel_llmgw.Prelude.{
  suc, String, Bool, true, false, Option, none, some, List, [], ◌∷◌, ◌++◌, ◌≡◌, refl, sym, ap, ◌∙◌,
  ◌⊎◌, inl, inr, arith, Bool-cases, Option-cases, All, subst,
}
use think_pixel_llmgw.Queue.{Config, DeadLetterItem}
use think_pixel_llmgw.Queue.DeadLetter.{MemoryDeadLetterQueue, add}
use think_pixel_llmgw.Worker.{Retried, retry}
use think_pixel_llmgw.Pricing.{UsageRecord}
use think_pixel_llmgw.UsageWorker.{
  UsageError, UsageTable, UsageWorker, UsageItem, create, insert_records, insert_batch,
  add_usage_letter, settle, process_item, process_items, fall_back, process_batch,
}
use think_pixel_llmgw.UsageWorker.Inserts.{
  IsStored, create-keeps, create-IsStored_new, retry_from-keeps, retry-Ended,
}

-- A record has a dead letter under its letter's ID.
abbrev InLetters : UsageItem → List (DeadLetterItem UsageRecord) → Type 0
InLetters x [] = ⊥
InLetters x (d ∷ ds) = ((d.id ≡ x.letter_id) × (d.item ≡ x.item)) ⊎ InLetters x ds

abbrev pub HasLetter : UsageItem → Option (MemoryDeadLetterQueue UsageRecord) → Type 0
HasLetter x none = ⊥
HasLetter x (some q) = InLetters x q.items

-- There is a dead letter queue, and it is open.
abbrev pub IsOpen : Option (MemoryDeadLetterQueue UsageRecord) → Type 0
IsOpen none = ⊥
IsOpen (some q) = q.closed ≡ false

letters-keep :
    (x : UsageItem) (ds es : List (DeadLetterItem UsageRecord))
    → InLetters x ds
    → InLetters x (ds ++ es)
letters-keep x [] es h = absurd h
letters-keep x (d ∷ ds) es (inl here) = inl here
letters-keep x (d ∷ ds) es (inr later) = inr (letters-keep x ds es later)

letters-last :
    (x : UsageItem) (ds : List (DeadLetterItem UsageRecord)) (d : DeadLetterItem UsageRecord)
    → d.id ≡ x.letter_id
    → d.item ≡ x.item
    → InLetters x (ds ++ d ∷ [])
letters-last x [] d same_id same_item = inl (same_id, same_item)
letters-last x (e ∷ ds) d same_id same_item = inr (letters-last x ds d same_id same_item)

add_usage_letter-IsOpen :
    (q : Option (MemoryDeadLetterQueue UsageRecord)) (x : UsageItem)
    → IsOpen q
    → IsOpen (add_usage_letter q x)
unfolding add_usage_letter add
add_usage_letter-IsOpen none x h = absurd h
add_usage_letter-IsOpen (some q) x open_queue = ground (arith, open_queue)

add_usage_letter-HasLetter :
    (q : Option (MemoryDeadLetterQueue UsageRecord)) (x : UsageItem)
    → IsOpen q
    → HasLetter x (add_usage_letter q x)
unfolding add_usage_letter add
add_usage_letter-HasLetter none x h = absurd h
add_usage_letter-HasLetter (some q) x open_queue =
    rw open_queue (letters-last x q.items _ refl refl)

add_usage_letter-keeps :
    (q : Option (MemoryDeadLetterQueue UsageRecord)) (x y : UsageItem)
    → HasLetter y q
    → HasLetter y (add_usage_letter q x)
unfolding add_usage_letter add
add_usage_letter-keeps none x y h = absurd h
add_usage_letter-keeps (some q) x y h = elim (Bool-cases q.closed) [
  | inl shut ↦ rw shut h
  | inr open_queue ↦ rw open_queue (letters-keep y q.items _ h)
]

-- A record is in the table, or has a dead letter.
abbrev pub IsKept : UsageWorker → UsageItem → Type 0
IsKept w x = IsStored x.item.id w.table ⊎ HasLetter x w.dlq

settle-IsOpen :
    (w : UsageWorker) (x : UsageItem) (r : Retried UsageTable UsageError) (o : Option UsageError)
    → IsOpen w.dlq
    → IsOpen (settle w x r o).dlq
unfolding settle
settle-IsOpen w x r none h = h
settle-IsOpen w x r (some e) h = add_usage_letter-IsOpen w.dlq x h

settle-IsKept :
    (w : UsageWorker) (x : UsageItem) (r : Retried UsageTable UsageError) (o : Option UsageError)
    → IsOpen w.dlq
    → (o ≡ none → IsStored x.item.id r.state)
    → IsKept (settle w x r o) x
unfolding settle
settle-IsKept w x r none h ended = inl (ended refl)
settle-IsKept w x r (some e) h ended = inr (add_usage_letter-HasLetter w.dlq x h)

settle-keeps :
    (w : UsageWorker) (x y : UsageItem) (r : Retried UsageTable UsageError) (o : Option UsageError)
    → (IsStored y.item.id w.table → IsStored y.item.id r.state)
    → IsKept w y
    → IsKept (settle w x r o) y
unfolding settle
settle-keeps w x y r none keeps (inl stored) = inl (keeps stored)
settle-keeps w x y r none keeps (inr letter) = inr letter
settle-keeps w x y r (some e) keeps (inl stored) = inl (keeps stored)
settle-keeps w x y r (some e) keeps (inr letter) = inr (add_usage_letter-keeps w.dlq x y letter)

insert_records-keeps :
    (commits : Bool) (xs : List UsageItem) (t : UsageTable) (id : String)
    → IsStored id t
    → IsStored id (insert_records commits xs t).0
unfolding insert_records
insert_records-keeps true [] t id h = h
insert_records-keeps false [] t id h = h
insert_records-keeps commits (x ∷ xs) t id h = elim (Option-cases (create x.item t).1) [
  | inr (e, failure) ↦ ground (arith, failure, create-keeps x.item t id h)
  | inl success ↦ ground (
    arith,
    success,
    insert_records-keeps commits xs (create x.item t).0 id (create-keeps x.item t id h),
  )
]

insert_records-step :
    (commits : Bool) (x : UsageItem) (xs : List UsageItem) (t : UsageTable)
    → (create x.item t).1 ≡ none
    → insert_records commits (x ∷ xs) t ≡ insert_records commits xs (create x.item t).0
unfolding insert_records
insert_records-step commits x xs t success = ground (arith, success)

-- A batch without an error has stored all its records.
insert_records-IsStored :
    (commits : Bool) (xs : List UsageItem) (t : UsageTable)
    → (insert_records commits xs t).1 ≡ none
    → All (λ x. IsStored x.item.id (insert_records commits xs t).0) xs
unfolding insert_records
insert_records-IsStored commits [] t h = tt
insert_records-IsStored commits (x ∷ xs) t h = elim (Option-cases (create x.item t).1) [
  | inr (e, failure) ↦ ground (arith, failure, h)
  | inl success ↦
      let step = insert_records-step commits x xs t success in
      subst (λ p. All (λ y. IsStored y.item.id p.0) (x ∷ xs)) (sym step)
        (
          insert_records-keeps commits xs (create x.item t).0 x.item.id
              (create-IsStored_new x.item t success),
          insert_records-IsStored commits xs (create x.item t).0 (sym (ap (λ p. p.1) step) ∙ h),
        )
]

insert_batch-IsStored :
    (begins commits : Bool) (xs : List UsageItem) (t : UsageTable)
    → (insert_batch begins commits xs t).1 ≡ none
    → All (λ x. IsStored x.item.id (insert_batch begins commits xs t).0) xs
unfolding insert_batch
insert_batch-IsStored true commits xs t h = insert_records-IsStored commits xs t h
insert_batch-IsStored false commits xs t h = ground (arith, h)

stored-IsKept :
    (w : UsageWorker) (xs : List UsageItem)
    → All (λ x. IsStored x.item.id w.table) xs
    → All (IsKept w) xs
stored-IsKept w [] h = tt
stored-IsKept w (x ∷ xs) h = (inl h.0, stored-IsKept w xs h.1)

module _ (config : Config) where
  process_item-IsOpen :
      (w : UsageWorker) (x : UsageItem) → IsOpen w.dlq → IsOpen (process_item config w x).dlq
  unfolding process_item
  process_item-IsOpen w x h =
      let r = retry (create x.item) config.retry_backoff config.max_retries w.table in
      settle-IsOpen w x r r.last_error h

  process_item-IsKept :
      (w : UsageWorker) (x : UsageItem) → IsOpen w.dlq → IsKept (process_item config w x) x
  unfolding process_item
  process_item-IsKept w x h =
      let r = retry (create x.item) config.retry_backoff config.max_retries w.table in
      settle-IsKept w x r r.last_error h
        (retry-Ended x.item config.retry_backoff config.max_retries w.table)

  process_item-keeps :
      (w : UsageWorker) (x y : UsageItem) → IsKept w y → IsKept (process_item config w x) y
  unfolding process_item retry
  process_item-keeps w x y h =
      let r = retry (create x.item) config.retry_backoff config.max_retries w.table in
      settle-keeps w x y r r.last_error
        (retry_from-keeps x.item config.retry_backoff (suc config.max_retries) 0 w.table none 0
          y.item.id)
        h

  process_items-keeps :
      (w : UsageWorker) (xs : List UsageItem) (y : UsageItem)
      → IsKept w y
      → IsKept (process_items config w xs) y
  unfolding process_items
  process_items-keeps w [] y h = h
  process_items-keeps w (x ∷ xs) y h =
      process_items-keeps (process_item config w x) xs y (process_item-keeps w x y h)

  process_items-IsKept :
      (w : UsageWorker) (xs : List UsageItem)
      → IsOpen w.dlq
      → All (IsKept (process_items config w xs)) xs
  unfolding process_items
  process_items-IsKept w [] h = tt
  process_items-IsKept w (x ∷ xs) h = (
    process_items-keeps (process_item config w x) xs x (process_item-IsKept w x h),
    process_items-IsKept (process_item config w x) xs (process_item-IsOpen w x h),
  )

  fall_back-IsKept :
      (w : UsageWorker) (xs : List UsageItem) (o : Option UsageError)
      → IsOpen w.dlq
      → (o ≡ none → All (λ x. IsStored x.item.id w.table) xs)
      → All (IsKept (fall_back config w xs o)) xs
  unfolding fall_back
  fall_back-IsKept w xs none h stored = stored-IsKept w xs (stored refl)
  fall_back-IsKept w xs (some e) h stored = process_items-IsKept w xs h

  -- Where the dead letter queue is there and open, every record of a batch is in the table or has a
  -- dead letter after processBatch, whatever becomes of the INSERTs, of
  -- BeginTxx and of the commit.
  pub process_batch-IsKept :
      (begins commits : Bool) (w : UsageWorker) (xs : List UsageItem)
      → IsOpen w.dlq
      → All (IsKept (process_batch config begins commits w xs)) xs
  unfolding process_batch
  process_batch-IsKept begins commits w [] h = tt
  process_batch-IsKept begins commits w (x ∷ xs) h =
      let (table, error) = insert_batch begins commits (x ∷ xs) w.table in
      fall_back-IsKept (record w { table = table }) (x ∷ xs) error h
        (insert_batch-IsStored begins commits (x ∷ xs) w.table)
