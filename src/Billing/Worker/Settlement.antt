-- ===== src/Billing/Worker/Settlement.antt =====
-- What it means that a batch of the billing worker is settled.
use think_pixel_llmgw.Prelude.{
  ℕ, String, ◌≡◌, Option, none, some, false, List, [], ◌∷◌, ◌++◌, Float64,
}
use think_pixel_llmgw.Redis.{replied, refused, reply_lost, RedisValues}
use think_pixel_llmgw.Queue.{DeadLetterItem}
use think_pixel_llmgw.Queue.DeadLetter.{MemoryDeadLetterQueue}
use think_pixel_llmgw.Billing.{monthly_key, add_script}
use think_pixel_llmgw.Billing.Worker.{BillingUpdate, Month, Call, Stamped}

-- No reply is lost, and each call comes in a month of `During`.
abbrev pub NoneLost : (Month → Type 0) → List Call → Type 0
NoneLost During [] = Unit
NoneLost During ((replied, month) ∷ cs) = During month × NoneLost During cs
NoneLost During ((refused, month) ∷ cs) = During month × NoneLost During cs
NoneLost During ((reply_lost, month) ∷ cs) = ⊥

-- Calls in these months whose replies are all lost.
abbrev pub all_lost : List (Month) → List Call
all_lost [] = []
all_lost (month ∷ months) = (reply_lost, month) ∷ all_lost months

-- An open dead letter queue with these letters.
abbrev pub open_with {ℓ} :
    {W : Type ℓ}
    → List (DeadLetterItem (BillingUpdate W))
    → Option (MemoryDeadLetterQueue (BillingUpdate W))
open_with letters = some (record { items = letters; closed = false })

-- The letter that an update becomes.
abbrev pub letter_of {ℓ} :
    {W : Type ℓ} → String → ℕ → BillingUpdate W → DeadLetterItem (BillingUpdate W)
letter_of id now u = record {
  id = id;
  item = u;
  error = "failed to add usage";
  timestamp = now;
  retries = 0;
}

module _ {ℓ} {R W : Type ℓ} (kv : RedisValues R W) ⦃f : Float64 W⦄ where
  -- The server after an update is applied in a month.
  abbrev pub applied : Month → R → BillingUpdate W → R
  applied m r u = add_script kv r (monthly_key u.api_key_id m.year m.month) u.cost_usd

  -- The server after an update is applied in each of these months.
  unfoldable pub applied_in : List (Month) → R → BillingUpdate W → R
  applied_in [] r u = r
  applied_in (month ∷ months) r u = applied_in months (applied month r u) u

  -- A batch settled item by item, from one state of the server and the dead letters to another:
  -- an item that cannot be decoded is dropped, and any other is applied to the server once, in a
  -- month of `During`, or becomes a dead letter once, never both.
  pub data Settles (During : Month → Type 0) {A : Type ℓ} (decode : A → Option (BillingUpdate W))
      : List (Stamped A)
        → R
        → List (DeadLetterItem (BillingUpdate W))
        → R
        → List (DeadLetterItem (BillingUpdate W))
        → Type ℓ where
    all_settled :
        {r : R} {ds : List (DeadLetterItem (BillingUpdate W))} → Settles During decode [] r ds r ds
    dropped :
        {x : Stamped A} {xs : List (Stamped A)} {r r' : R}
        {ds ds' : List (DeadLetterItem (BillingUpdate W))}
        → decode x.item ≡ none
        → Settles During decode xs r ds r' ds'
        → Settles During decode (x ∷ xs) r ds r' ds'
    counted :
        {x : Stamped A} {xs : List (Stamped A)} {r r' : R}
        {ds ds' : List (DeadLetterItem (BillingUpdate W))} (u : BillingUpdate W) (month : Month)
        → decode x.item ≡ some u
        → During month
        → Settles During decode xs (applied month r u) ds r' ds'
        → Settles During decode (x ∷ xs) r ds r' ds'
    buried :
        {x : Stamped A} {xs : List (Stamped A)} {r r' : R}
        {ds ds' : List (DeadLetterItem (BillingUpdate W))} (u : BillingUpdate W)
        → decode x.item ≡ some u
        → Settles During decode xs r (ds ++ letter_of x.id x.now u ∷ []) r' ds'
        → Settles During decode (x ∷ xs) r ds r' ds'
