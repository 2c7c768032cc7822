-- ===== src/Queue/RedisDeadLetters.antt =====
-- The dead letter queue of llm_gateway/internal/queue/redis.go: a hash of JSON under one key, with a
-- field for each letter's ID. JSON is a parameter: what is decoded of an item of type A is of
-- type B, a JSON value. `generateID()` and `time.Now()` are the arguments `id` and `now` of `add`.
pub mod Refinement
use think_pixel_llmgw.Prelude.{
  ℕ, zero, suc, String, ◌⊕◌, Option, none, some, List, [], ◌∷◌, ℤ, pos, negsuc, take,
}
use think_pixel_llmgw.Redis.{Link, replied, refused, reply_lost, RedisHashes}
use think_pixel_llmgw.Queue.{Config, DeadLetterItem}
use think_pixel_llmgw.Queue.RedisQueue.{RedisReply, answered, failed}

unfoldable pub dead_letter_key : Config → String
dead_letter_key config = "dlq:" ⊕ config.queue_name

abbrev pub new_letter {ℓ} : {A : Type ℓ} → String → ℕ → A → String → DeadLetterItem A
new_letter id now item error = record {
  id = id;
  item = item;
  error = error;
  timestamp = now;
  retries = 0;
}

-- The letters that a loop over the values decodes; malformed ones are skipped.
abbrev pub letters_of {ℓ} :
    {T B : Type ℓ} → (T → Option (DeadLetterItem B)) → List (String × T) → List (DeadLetterItem B)
letters_of unmarshal [] = []
letters_of unmarshal (e ∷ es) =
    let rest = letters_of unmarshal es in elim (unmarshal (e.1)) [ none ↦ rest | some d ↦ d ∷ rest ]

-- The loop stops at `maxItems` letters, where that is positive.
abbrev pub at_most {ℓ} : {B : Type ℓ} → ℤ → List B → List B
at_most (pos zero) ds = ds
at_most (pos (suc n)) ds = take (suc n) ds
at_most (negsuc n) ds = ds

module _ {ℓ} {R T : Type ℓ} (hs : RedisHashes R T) where
  abbrev pub stored : R → String → Link → String → Option T → R × RedisReply (Unit {0})
  stored r key link id none = (r, failed)
  stored r key replied id (some json) = (hs.hset r key id json, answered tt)
  stored r key refused id (some json) = (r, failed)
  stored r key reply_lost id (some json) = (hs.hset r key id json, failed)

  unfoldable pub add :
      {A : Type ℓ}
      → (DeadLetterItem A → Option T)
      → R
      → String
      → Link
      → String
      → ℕ
      → A
      → String
      → R × RedisReply (Unit {0})
  add marshal r key link id now item error =
      stored r key link id (marshal (new_letter id now item error))

  unfoldable pub list :
      {B : Type ℓ}
      → (T → Option (DeadLetterItem B))
      → R
      → String
      → Link
      → ℤ
      → RedisReply (List (DeadLetterItem B))
  list unmarshal r key replied max_items =
      answered (at_most max_items (letters_of unmarshal (hs.hgetall r key)))
  list unmarshal r key refused max_items = failed
  list unmarshal r key reply_lost max_items = failed

  unfoldable pub remove : R → String → Link → String → R × RedisReply (Unit {0})
  remove r key replied id = (hs.hdel r key id, answered tt)
  remove r key refused id = (r, failed)
  remove r key reply_lost id = (hs.hdel r key id, failed)
