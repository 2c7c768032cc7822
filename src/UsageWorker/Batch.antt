-- ===== src/UsageWorker/Batch.antt =====
-- What a batch that fails part of the way leaves behind.
use think_pixel_llmgw.Prelude.{
  ℕ, zero, suc, ◌+◌, eq_refl, Bool, true, false, Option, none, some, List, [], ◌∷◌, ◌≡◌, refl, ap,
  ◌∙◌, arith,
}
use think_pixel_llmgw.Redis.{replied, refused}
use think_pixel_llmgw.Queue.{Config}
use think_pixel_llmgw.Worker.{Retried, retry, retry_from, sleep_before}
use think_pixel_llmgw.Pricing.{UsageRecord}
use think_pixel_llmgw.UsageWorker.{
  UsageError, failed_insert, UsageTable, UsageWorker, UsageItem, has_id, insert, create,
  insert_batch, insert_records, add_usage_letter, settle, process_item, process_items, fall_back,
  process_batch,
}

module _ {ℓ κ} {S : Type ℓ} {E : Type κ} (call : S → S × Option E) (retry_backoff : ℕ) where
  -- A call that fails and leaves the state as it is fails at every attempt.
  retry_from-stuck :
      (left attempt : ℕ) (s : S) (e : E) (slept : ℕ)
      → (call s).1 ≡ some e
      → (call s).0 ≡ s
      → let t = retry_from call retry_backoff left attempt s (some e) slept in
        (t.last_error ≡ some e) × (t.state ≡ s)
  unfolding retry_from
  retry_from-stuck zero attempt s e slept fails same = (refl, refl)
  retry_from-stuck (suc left) attempt s e slept fails same =
      let rest =
        retry_from-stuck left (suc attempt) s e (slept + sleep_before retry_backoff attempt) fails
          same in
      ground (arith, fails, same, rest)

  retry-stuck :
      (max_retries : ℕ) (s : S) (e : E)
      → (call s).1 ≡ some e
      → (call s).0 ≡ s
      → ((retry call retry_backoff max_retries s).last_error ≡ some e)
        × ((retry call retry_backoff max_retries s).state ≡ s)
  unfolding retry retry_from
  retry-stuck max_retries s e fails same =
      let rest = retry_from-stuck max_retries 1 s e (sleep_before retry_backoff 0) fails same in
      ground (arith, fails, same, rest)

abbrev table_of : List UsageRecord → UsageTable
table_of rows = record { rows = rows; links = [] }

create-stored :
    (u : UsageRecord) (rows : List UsageRecord)
    → has_id rows u.id ≡ true
    → create u (table_of rows) ≡ (table_of rows, some failed_insert)
unfolding create insert
create-stored u rows stored = rw stored refl

settle-failed :
    (w : UsageWorker) (x : UsageItem) (r : Retried UsageTable UsageError) (t : UsageTable)
    → r.last_error ≡ some failed_insert
    → r.state ≡ t
    → ((settle w x r r.last_error).table ≡ t)
      × ((settle w x r r.last_error).dlq ≡ add_usage_letter w.dlq x)
unfolding settle
settle-failed w x r t failure state = ground (arith, failure, state)

settle-done :
    (w : UsageWorker) (x : UsageItem) (r : Retried UsageTable UsageError) (t : UsageTable)
    → r.last_error ≡ none
    → r.state ≡ t
    → ((settle w x r r.last_error).table ≡ t) × ((settle w x r r.last_error).dlq ≡ w.dlq)
unfolding settle
settle-done w x r t success state = ground (arith, success, state)

-- Where the table holds a record's ID already and no INSERT is refused any more, processItem
-- leaves the table as it is and makes a dead letter of the record.
process_item-stored :
    (config : Config) (w : UsageWorker) (x : UsageItem) (rows : List UsageRecord)
    → w.table ≡ table_of rows
    → has_id rows x.item.id ≡ true
    → ((process_item config w x).table ≡ table_of rows)
      × ((process_item config w x).dlq ≡ add_usage_letter w.dlq x)
unfolding process_item settle
process_item-stored config w x rows at stored =
    let made = create-stored x.item rows stored in
    let stuck =
      retry-stuck (create x.item) config.retry_backoff config.max_retries (table_of rows)
        failed_insert (ap (λ p. p.1) made) (ap (λ p. p.0) made) in
    rw at (
      settle-failed w x
        (retry (create x.item) config.retry_backoff config.max_retries (table_of rows))
        (table_of rows) stuck.0 stuck.1)

retry-created :
    (config : Config) (u : UsageRecord) (rows : List UsageRecord)
    → has_id rows u.id ≡ false
    → ((retry (create u) config.retry_backoff config.max_retries (table_of rows)).last_error ≡ none)
      × ((retry (create u) config.retry_backoff config.max_retries (table_of rows)).state
          ≡ table_of (u ∷ rows))
unfolding retry retry_from create insert
retry-created config u rows new = ground (arith, new)

process_item-new :
    (config : Config) (w : UsageWorker) (x : UsageItem) (rows : List UsageRecord)
    → w.table ≡ table_of rows
    → has_id rows x.item.id ≡ false
    → ((process_item config w x).table ≡ table_of (x.item ∷ rows))
      × ((process_item config w x).dlq ≡ w.dlq)
unfolding process_item
process_item-new config w x rows at new =
    let made = retry-created config x.item rows new in
    rw at (
      settle-done w x
        (retry (create x.item) config.retry_backoff config.max_retries (table_of rows))
        (table_of (x.item ∷ rows)) made.0 made.1)

insert_batch-partial :
    (commits : Bool) (a b : UsageItem) (rows : List UsageRecord)
    → has_id rows a.item.id ≡ false
    → insert_batch true commits
        (a ∷ b ∷ [])
        (record { rows = rows; links = replied ∷ refused ∷ [] })
      ≡ (table_of (a.item ∷ rows), some failed_insert)
unfolding insert_batch insert_records create insert
insert_batch-partial commits a b rows new = ground (arith, new)

-- Where the transaction begins, the first INSERT of a batch of two new records works, the second is refused, and every
-- later one runs, processBatch stores both records, and also makes a dead letter of the first.
pub process_batch_buries_stored :
    (config : Config) (commits : Bool) (w : UsageWorker) (a b : UsageItem) (rows : List UsageRecord)
    → w.table ≡ record { rows = rows; links = replied ∷ refused ∷ [] }
    → has_id rows a.item.id ≡ false
    → has_id (a.item ∷ rows) b.item.id ≡ false
    → ((process_batch config true commits w (a ∷ b ∷ [])).table.rows ≡ b.item ∷ a.item ∷ rows)
      × ((process_batch config true commits w (a ∷ b ∷ [])).dlq ≡ add_usage_letter w.dlq a)
unfolding process_batch fall_back process_items has_id
process_batch_buries_stored config commits w a b rows at new_a new_b =
    let failed =
      ap (insert_batch true commits (a ∷ b ∷ [])) at
      ∙ insert_batch-partial commits a b rows new_a in
    let start : UsageWorker = record w { table = table_of (a.item ∷ rows) } in
    let first = process_item config start a in
    let (table_a, dlq_a) =
      process_item-stored config start a (a.item ∷ rows) refl (ground (arith, eq_refl a.item.id)) in
    let (table_b, dlq_b) = process_item-new config first b (a.item ∷ rows) table_a new_b in
    let run = λ (p : UsageTable × Option UsageError).
      fall_back config (record w { table = p.0 }) (a ∷ b ∷ []) p.1 in
    (
      ap (λ p. (run p).table.rows) failed ∙ ap (λ t. t.rows) table_b,
      ap (λ p. (run p).dlq) failed ∙ dlq_b ∙ dlq_a,
    )
