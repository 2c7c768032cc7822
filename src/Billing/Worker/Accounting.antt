-- ===== src/Billing/Worker/Accounting.antt =====
-- The billing worker counts each update once, or keeps it as a dead letter, unless a reply of
-- Redis is lost.
use think_pixel_llmgw.Prelude.{
  ℕ, zero, suc, ◌+◌, String, ◌≡◌, refl, sym, ap, ◌∙◌, ◌⊎◌, inl, inr, Option, none, some, List, [],
  ◌∷◌, ◌++◌, length, arith, Float64, Option-cases, subst,
}
use think_pixel_llmgw.Redis.{replied, refused, reply_lost, RedisValues}
use think_pixel_llmgw.Queue.{Config, DeadLetterItem}
use think_pixel_llmgw.Queue.DeadLetter.{add}
use think_pixel_llmgw.Worker.{Retried, retry, retry_from, sleep_before}
use think_pixel_llmgw.Billing.{BillingError, failed_add, add_usage}
use think_pixel_llmgw.Billing.Worker.{
  BillingUpdate, Month, Call, Service, BillingWorker, Stamped, service_call, add_dead_letter,
  finish, process_update, process_item, process_batch,
}
use think_pixel_llmgw.Billing.Worker.Settlement.{
  NoneLost, all_lost, open_with, letter_of, applied, applied_in, Settles, all_settled, dropped,
  counted, buried,
}

module _ {ℓ} {R W : Type ℓ} (kv : RedisValues R W) ⦃f : Float64 W⦄ (config : Config)
    (year month : ℕ) where
  module _ (During : Month → Type 0)
      (now_during : During (record { year = year; month = month })) where
    -- How the loop left the service: the update applied once and reported done, or not at all
    -- and reported failed; and no lost reply ahead.
    abbrev Once : BillingUpdate W → R → Retried (Service R) BillingError → Type ℓ
    Once u r t =
        NoneLost During t.state.calls
        × (((t.last_error ≡ none) × ((m : Month) × During m × (t.state.redis ≡ applied kv m r u)))
            ⊎ ((t.last_error ≡ some failed_add) × (t.state.redis ≡ r)))

    retry_from-Once :
        (u : BillingUpdate W) (left attempt : ℕ) (r : R) (calls : List Call) (slept : ℕ)
        → NoneLost During calls
        → Once u r (
            retry_from
              (service_call kv config year month u)
              config.retry_backoff
              left
              attempt
              (record { redis = r; calls = calls })
              (some failed_add)
              slept)
    unfolding retry_from service_call add_usage
    retry_from-Once u zero attempt r calls slept h = (h, inr (refl, refl))
    retry_from-Once u (suc left) attempt r [] slept h =
        (tt, inl (refl, (record { year = year; month = month }, now_during, refl)))
    retry_from-Once u (suc left) attempt r ((replied, m) ∷ cs) slept h =
        (h.1, inl (refl, (m, h.0, refl)))
    retry_from-Once u (suc left) attempt r ((refused, m) ∷ cs) slept h =
        retry_from-Once u left (suc attempt) r cs
          (slept + sleep_before config.retry_backoff attempt) h.1
    retry_from-Once u (suc left) attempt r ((reply_lost, m) ∷ cs) slept h = absurd h

    retry-Once :
        (u : BillingUpdate W) (r : R) (calls : List Call)
        → NoneLost During calls
        → Once u r (
            retry
              (service_call kv config year month u)
              config.retry_backoff
              config.max_retries
              (record { redis = r; calls = calls }))
    unfolding retry retry_from service_call add_usage
    retry-Once u r [] h =
        (tt, inl (refl, (record { year = year; month = month }, now_during, refl)))
    retry-Once u r ((replied, m) ∷ cs) h = (h.1, inl (refl, (m, h.0, refl)))
    retry-Once u r ((refused, m) ∷ cs) h = retry_from-Once u config.max_retries 1 r cs _ h.1
    retry-Once u r ((reply_lost, m) ∷ cs) h = absurd h

    -- What one update may do to the server and to an open dead letter queue.
    abbrev pub Settled :
        BillingWorker R W
        → String
        → ℕ
        → BillingUpdate W
        → List (DeadLetterItem (BillingUpdate W))
        → BillingWorker R W
        → Type ℓ
    Settled w id now u ds w' =
        (((m : Month) × During m × (w'.service.redis ≡ applied kv m w.service.redis u))
          × (w'.dlq ≡ open_with ds))
        ⊎ ((w'.service.redis ≡ w.service.redis)
            × (w'.dlq ≡ open_with (ds ++ letter_of id now u ∷ [])))

    abbrev Finished :
        BillingWorker R W
        → String
        → ℕ
        → BillingUpdate W
        → List (DeadLetterItem (BillingUpdate W))
        → Retried (Service R) BillingError
        → Option BillingError
        → Type ℓ
    Finished w id now u ds t o =
        NoneLost During (finish w id now u t o).0.service.calls
        × Settled w id now u ds (finish w id now u t o).0

    finish-Settled :
        (w : BillingWorker R W) (id : String) (now : ℕ) (u : BillingUpdate W)
        (ds : List (DeadLetterItem (BillingUpdate W))) (t : Retried (Service R) BillingError)
        → w.dlq ≡ open_with ds
        → Once u w.service.redis t
        → NoneLost During (finish w id now u t t.last_error).0.service.calls
          × Settled w id now u ds (finish w id now u t t.last_error).0
    unfolding finish add_dead_letter add
    finish-Settled w id now u ds t is_open (none_lost, inl (done, once)) =
        subst (Finished w id now u ds t) (sym done) (none_lost, inl (once, is_open))
    finish-Settled w id now u ds t is_open (none_lost, inr (failed, same)) =
        subst (Finished w id now u ds t) (sym failed)
          (none_lost, inr (same, ap (λ q. add_dead_letter q id now u failed_add) is_open))

    process_update-Settled :
        (w : BillingWorker R W) (id : String) (now : ℕ) (u : BillingUpdate W)
        (ds : List (DeadLetterItem (BillingUpdate W)))
        → w.dlq ≡ open_with ds
        → NoneLost During w.service.calls
        → NoneLost During (process_update kv config year month w id now u).0.service.calls
          × Settled w id now u ds (process_update kv config year month w id now u).0
    unfolding process_update
    process_update-Settled w id now u ds is_open h =
        finish-Settled w id now u ds _ is_open (retry-Once u w.service.redis w.service.calls h)

  process_item_bad :
      {A : Type ℓ} (decode : A → Option (BillingUpdate W)) (w : BillingWorker R W) (x : Stamped A)
      → decode x.item ≡ none
      → process_item kv config year month decode w x ≡ w
  unfolding process_item
  process_item_bad decode w x bad = ground (arith, bad)

  process_item_good :
      {A : Type ℓ} (decode : A → Option (BillingUpdate W)) (w : BillingWorker R W) (x : Stamped A)
      (u : BillingUpdate W)
      → decode x.item ≡ some u
      → process_item kv config year month decode w x
        ≡ (process_update kv config year month w x.id x.now u).0
  unfolding process_item
  process_item_good decode w x u good = ground (arith, good)

  retry_from-lost :
      (u : BillingUpdate W) (months : List Month) (attempt : ℕ) (r : R) (last : Option BillingError)
      (slept : ℕ)
      → (retry_from
          (service_call kv config year month u)
          config.retry_backoff
          (length months)
          attempt
          (record { redis = r; calls = all_lost months })
          last
          slept).state.redis
        ≡ applied_in kv months r u
  unfolding retry_from service_call add_usage applied_in
  retry_from-lost u [] attempt r last slept = refl
  retry_from-lost u (m ∷ months) attempt r last slept =
      retry_from-lost u months (suc attempt) (applied kv m r u) (some failed_add)
        (slept + sleep_before config.retry_backoff attempt)

  finish-redis :
      (w : BillingWorker R W) (id : String) (now : ℕ) (u : BillingUpdate W)
      (t : Retried (Service R) BillingError) (o : Option BillingError)
      → (finish w id now u t o).0.service.redis ≡ t.state.redis
  unfolding finish
  finish-redis w id now u t none = refl
  finish-redis w id now u t (some e) = refl

  -- Where the replies to all MaxRetries + 1 calls of an update are lost, its cost is added
  -- MaxRetries + 1 times, each time to the month of the call.
  pub lost_replies_overcount :
      (w : BillingWorker R W) (id : String) (now : ℕ) (u : BillingUpdate W) (months : List Month)
      → length months ≡ suc config.max_retries
      → w.service.calls ≡ all_lost months
      → (process_update kv config year month w id now u).0.service.redis
        ≡ applied_in kv months w.service.redis u
  unfolding process_update retry
  lost_replies_overcount w id now u months all lost =
      let run = λ (n : ℕ) (cs : List Call).
        retry_from (service_call kv config year month u) config.retry_backoff n 0
          (record { redis = w.service.redis; calls = cs }) none 0 in
      let t = run (suc config.max_retries) w.service.calls in
      finish-redis w id now u t t.last_error
      ∙ ap (λ cs. (run (suc config.max_retries) cs).state.redis) lost
      ∙ ap (λ n. (run n (all_lost months)).state.redis) (sym all)
      ∙ retry_from-lost u months 0 w.service.redis none 0

  module _ (During : Month → Type 0)
      (now_during : During (record { year = year; month = month })) where
    -- The items settle from the server `r` and the letters `ds`, where what is left of them is
    -- still to be processed by `w`.
    abbrev Ends :
        {A : Type ℓ} (decode : A → Option (BillingUpdate W))
        → List (Stamped A)
        → List (Stamped A)
        → R
        → List (DeadLetterItem (BillingUpdate W))
        → BillingWorker R W
        → Type ℓ
    Ends decode xs left r ds w =
        (ds' : List (DeadLetterItem (BillingUpdate W))) × ((process_batch kv config year month
            decode w left).dlq
          ≡ open_with ds')
        × Settles kv During decode xs r ds
            (process_batch kv config year month decode w left).service.redis ds'

    -- Where no reply of Redis is lost, each call comes in a month of `During`, and the dead letter
    -- queue exists and is open, processBatch settles the batch: it drops the items that cannot be
    -- decoded, and each other item is either added once to its total of such a month or appended
    -- once to the letters of the queue, and not both; the queue is open afterwards.
    pub process_batch-Settles :
        {A : Type ℓ} (decode : A → Option (BillingUpdate W)) (w : BillingWorker R W)
        (xs : List (Stamped A)) (ds : List (DeadLetterItem (BillingUpdate W)))
        → w.dlq ≡ open_with ds
        → NoneLost During w.service.calls
        → (ds' : List (DeadLetterItem (BillingUpdate W))) × ((process_batch kv config year month
              decode w xs).dlq
            ≡ open_with ds')
          × Settles kv During decode xs w.service.redis ds
              (process_batch kv config year month decode w xs).service.redis
              ds'
    unfolding process_batch
    process_batch-Settles decode w [] ds is_open h = (ds, is_open, all_settled)
    process_batch-Settles decode w (x ∷ xs) ds is_open h = elim (Option-cases (decode x.item)) [
      | inl bad ↦
          let (ds', still, settles) = process_batch-Settles decode w xs ds is_open h in
          subst (Ends decode (x ∷ xs) xs w.service.redis ds) (sym (process_item_bad decode w x bad))
            (ds', still, dropped bad settles)
      | inr (u, good) ↦
          let w' = (process_update kv config year month w x.id x.now u).0 in
          let (none_lost, settled) =
            process_update-Settled During now_during w x.id x.now u ds is_open h in
          subst (Ends decode (x ∷ xs) xs w.service.redis ds)
            (sym (process_item_good decode w x u good))
            (elim settled [
              | inl ((m, during, added), kept) ↦
                  let (ds', still, settles) =
                    process_batch-Settles decode w' xs ds kept none_lost in
                  (
                    ds',
                    still,
                    counted u m good during (
                        subst
                          (λ r.
                            Settles kv During decode xs r ds
                              (process_batch kv config year month decode w' xs).service.redis ds')
                          added settles),
                  )
              | inr (unchanged, letter) ↦
                  let (ds', still, settles) =
                    process_batch-Settles decode w' xs (ds ++ letter_of x.id x.now u ∷ []) letter
                      none_lost in
                  (
                    ds',
                    still,
                    buried u good (
                        subst
                          (λ r.
                            Settles kv During decode xs r (ds ++ letter_of x.id x.now u ∷ [])
                              (process_batch kv config year month decode w' xs).service.redis ds')
                          unchanged settles),
                  )
            ])
    ]
