-- ===== src/UsageWorker/Inserts.antt =====
-- What an INSERT, and a loop of them, leaves in the table of usage records.
use think_pixel_llmgw.Prelude.{
  ℕ, zero, suc, ◌+◌, String, eq_refl, true, Option, none, some, List, ◌≡◌, inl, inr, arith,
  Option-cases,
}
use think_pixel_llmgw.Redis.{Link, replied, refused, reply_lost}
use think_pixel_llmgw.Worker.{Retried, retry, retry_from, sleep_before}
use think_pixel_llmgw.Pricing.{UsageRecord}
use think_pixel_llmgw.UsageWorker.{UsageError, UsageTable, has_id, insert, create}
use think_pixel_llmgw.Billing.Worker.{next_link}

abbrev pub IsStored : String → UsageTable → Type 0
IsStored id t = has_id t.rows id ≡ true

insert-stored :
    (u : UsageRecord) (link : Link) (rows : List UsageRecord)
    → (insert u link rows).1 ≡ none
    → has_id (insert u link rows).0 u.id ≡ true
unfolding insert has_id
insert-stored u refused rows h = ground (arith, h)
insert-stored u replied rows h = ground (arith, h, eq_refl u.id)
insert-stored u reply_lost rows h = ground (arith, h)

insert-keeps :
    (u : UsageRecord) (link : Link) (rows : List UsageRecord) (id : String)
    → has_id rows id ≡ true
    → has_id (insert u link rows).0 id ≡ true
unfolding insert has_id
insert-keeps u refused rows id h = h
insert-keeps u replied rows id h = ground (arith, h)
insert-keeps u reply_lost rows id h = ground (arith, h)

pub create-IsStored_new :
    (u : UsageRecord) (t : UsageTable) → (create u t).1 ≡ none → IsStored u.id (create u t).0
unfolding create
create-IsStored_new u t h = insert-stored u (next_link t.links).0 t.rows h

pub create-keeps :
    (u : UsageRecord) (t : UsageTable) (id : String) → IsStored id t → IsStored id (create u t).0
unfolding create
create-keeps u t id h = insert-keeps u (next_link t.links).0 t.rows id h

-- What a loop that was left after at least one attempt guarantees for the IDs `id` and `u.id`.
abbrev Ended : UsageRecord → Retried UsageTable UsageError → Type 0
Ended u r = (r.last_error ≡ none → IsStored u.id r.state)

retry_from-Ended :
    (u : UsageRecord) (backoff left attempt : ℕ) (t : UsageTable) (e : UsageError) (slept : ℕ)
    → Ended u (retry_from (create u) backoff left attempt t (some e) slept)
unfolding retry_from
retry_from-Ended u backoff zero attempt t e slept h = ground (arith, h)
retry_from-Ended u backoff (suc left) attempt t e slept h = elim (Option-cases (create u t).1) [
  | inl success ↦ ground (arith, success, create-IsStored_new u t success)
  | inr (e', failure) ↦ ground (
    arith,
    failure,
    h,
    retry_from-Ended u backoff left (suc attempt) (create u t).0 e'
        (slept + sleep_before backoff attempt),
  )
]

pub retry_from-keeps :
    (u : UsageRecord) (backoff left attempt : ℕ) (t : UsageTable) (last : Option UsageError)
    (slept : ℕ) (id : String)
    → IsStored id t
    → IsStored id (retry_from (create u) backoff left attempt t last slept).state
unfolding retry_from
retry_from-keeps u backoff zero attempt t last slept id h = h
retry_from-keeps u backoff (suc left) attempt t last slept id h =
    elim (Option-cases (create u t).1) [
      | inl success ↦ ground (arith, success, create-keeps u t id h)
      | inr (e', failure) ↦ ground (
        arith,
        failure,
        retry_from-keeps u backoff left (suc attempt) (create u t).0 (some e')
            (slept + sleep_before backoff attempt) id (create-keeps u t id h),
      )
    ]

pub retry-Ended :
    (u : UsageRecord) (backoff max_retries : ℕ) (t : UsageTable)
    → Ended u (retry (create u) backoff max_retries t)
unfolding retry retry_from
retry-Ended u backoff max_retries t h = elim (Option-cases (create u t).1) [
  | inl success ↦ ground (arith, success, create-IsStored_new u t success)
  | inr (e', failure) ↦ ground (
    arith,
    failure,
    h,
    retry_from-Ended u backoff max_retries 1 (create u t).0 e' (sleep_before backoff 0),
  )
]
