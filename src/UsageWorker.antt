-- ===== src/UsageWorker.antt =====
-- The worker that stores queued usage records, llm_gateway/internal/storage/usage_queue_worker.go,
-- with Create of llm_gateway/internal/storage/usage_repository.go. `links` says how the INSERTs
-- will fare, one after another; beyond its end they succeed. A duplicate ID violates the table's
-- PRIMARY KEY. The rows are listed the newest first.
pub mod Batch
pub mod Inserts
pub mod Loss
mod Tests
use think_pixel_llmgw.Prelude.{
  ℕ, suc, ◌+◌, String, str_eq, Bool, true, false, Option, none, some, List, [], ◌∷◌, if◌then◌else◌,
}
use think_pixel_llmgw.Redis.{Link, replied, refused, reply_lost}
use think_pixel_llmgw.Queue.{Config}
use think_pixel_llmgw.Queue.DeadLetter.{MemoryDeadLetterQueue, add}
use think_pixel_llmgw.Worker.{Retried, retry}
use think_pixel_llmgw.Pricing.{UsageRecord}
use think_pixel_llmgw.Billing.Worker.{next_link}

pub data UsageError : Type 0 where
  failed_insert : UsageError

-- The table usage_records.
pub record UsageTable : Type 0 where
  pub rows : List UsageRecord
  pub links : List Link

pub record UsageWorker : Type 0 where
  pub table : UsageTable
  pub dlq : Option (MemoryDeadLetterQueue UsageRecord)
  pub slept : ℕ

-- A record, with the ID and the time that a dead letter made of it gets.
pub record UsageItem : Type 0 where
  pub item : UsageRecord
  pub letter_id : String
  pub now : ℕ

unfoldable pub has_id : List UsageRecord → String → Bool
has_id [] id = false
has_id (u ∷ us) id = if str_eq u.id id then true else has_id us id

-- The INSERT, with what becomes of it.
unfoldable pub insert : UsageRecord → Link → List UsageRecord → List UsageRecord × Option UsageError
unfolding has_id
insert u refused rows = (rows, some failed_insert)
insert u replied rows = if has_id rows u.id then (rows, some failed_insert) else (u ∷ rows, none)
insert u reply_lost rows =
    if has_id rows u.id then (rows, some failed_insert) else (u ∷ rows, some failed_insert)

-- UsageRepository.Create, of a record that has its ID.
unfoldable pub create : UsageRecord → UsageTable → UsageTable × Option UsageError
unfolding insert
create u t =
    let (link, links) = next_link t.links in
    let (rows, error) = insert u link t.rows in (record { rows = rows; links = links }, error)

-- insertBatch behind its BeginTxx: Create does not run in that transaction, so an early
-- return leaves the rows that are in, and `commits` decides only the error.
unfoldable pub insert_records : Bool → List UsageItem → UsageTable → UsageTable × Option UsageError
unfolding create
insert_records commits [] t = if commits then (t, none) else (t, some failed_insert)
insert_records commits (x ∷ xs) t =
    let (t', error) = create x.item t in
    elim error [ some e ↦ (t', some e) | none ↦ insert_records commits xs t' ]

-- A BeginTxx that fails leaves the table as it is.
unfoldable pub insert_batch :
    Bool → Bool → List UsageItem → UsageTable → UsageTable × Option UsageError
unfolding insert_records
insert_batch begins commits xs t =
    if begins then insert_records commits xs t else (t, some failed_insert)

abbrev pub usage_error_text : UsageError → String
usage_error_text e = "failed to create usage record"

unfoldable pub add_usage_letter :
    Option (MemoryDeadLetterQueue UsageRecord)
    → UsageItem
    → Option (MemoryDeadLetterQueue UsageRecord)
add_usage_letter none x = none
add_usage_letter (some q) x =
    some (add q x.letter_id x.now x.item (usage_error_text failed_insert)).0

-- processItem behind its loop.
unfoldable pub settle :
    UsageWorker → UsageItem → Retried UsageTable UsageError → Option UsageError → UsageWorker
unfolding add_usage_letter
settle w x r none = record w { table = r.state; slept = w.slept + r.slept }
settle w x r (some e) = record w {
  table = r.state;
  slept = w.slept + r.slept;
  dlq = add_usage_letter w.dlq x;
}

module _ (config : Config) where
  unfoldable pub process_item : UsageWorker → UsageItem → UsageWorker
  unfolding settle
  process_item w x =
      let r = retry (create x.item) config.retry_backoff config.max_retries w.table in
      settle w x r r.last_error

  unfoldable pub process_items : UsageWorker → List UsageItem → UsageWorker
  unfolding process_item
  process_items w [] = w
  process_items w (x ∷ xs) = process_items (process_item w x) xs

  -- The end of processBatch: the individual inserts where the batch failed.
  unfoldable pub fall_back : UsageWorker → List UsageItem → Option UsageError → UsageWorker
  unfolding process_items
  fall_back w xs none = w
  fall_back w xs (some e) = process_items w xs

  -- processBatch, on the records that could be decoded.
  unfoldable pub process_batch : Bool → Bool → UsageWorker → List UsageItem → UsageWorker
  unfolding insert_batch fall_back
  process_batch begins commits w [] = w
  process_batch begins commits w (x ∷ xs) =
      let (table, error) = insert_batch begins commits (x ∷ xs) w.table in
      fall_back (record w { table = table }) (x ∷ xs) error
