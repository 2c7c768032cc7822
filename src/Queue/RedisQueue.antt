-- ===== src/Queue/RedisQueue.antt =====
-- The Redis queue of llm_gateway/internal/queue/redis.go: a list under one key. JSON is a parameter
-- (`marshal`); what is dequeued is the raw JSON. A Link says how a command of Redis fares. The dead
-- letters are in Queue/RedisDeadLetters.
pub mod Refinement
use think_pixel_llmgw.Prelude.{
  ℕ, zero, suc, ◌-◌, String, ◌⊕◌, Bool, true, false, Option, none, some, List, [], ◌∷◌, ◌++◌, ℤ,
  to_ℕ,
}
use think_pixel_llmgw.Redis.{Link, replied, refused, reply_lost, RedisLists, head_of}
use think_pixel_llmgw.Queue.{Config}

-- What a call gives: `blocked` is a BLPOP without a timeout on an empty list.
pub data RedisReply {ℓ} (A : Type ℓ) : Type ℓ where
  answered : A → RedisReply A
  failed : RedisReply A
  blocked : RedisReply A

unfoldable pub queue_key : Config → String
queue_key config = "queue:" ⊕ config.queue_name

-- How the next command fares; those that are not listed are replied.
abbrev pub link_of : List Link → Link
link_of [] = replied
link_of (l ∷ ls) = l

abbrev pub links_after : List Link → List Link
links_after [] = []
links_after (l ∷ ls) = ls

module _ {ℓ} {R T : Type ℓ} (ls : RedisLists R T) where
  abbrev pub pushed : R → String → Link → Option T → R × RedisReply (Unit {0})
  pushed r key link none = (r, failed)
  pushed r key replied (some value) = (ls.rpush r key (value ∷ []), answered tt)
  pushed r key refused (some value) = (r, failed)
  pushed r key reply_lost (some value) = (ls.rpush r key (value ∷ []), failed)

  unfoldable pub enqueue :
      {A : Type ℓ} → (A → Option T) → R → String → Link → A → R × RedisReply (Unit {0})
  enqueue marshal r key link item = pushed r key link (marshal item)

  -- LPOP, with what it returns; `none` for an empty list and for an error, which both end the loop.
  abbrev pub popped : R → String → Link → Option T → R × Option T
  popped r key refused value = (r, none)
  popped r key replied none = (r, none)
  popped r key replied (some value) = (ls.lpop r key, some value)
  popped r key reply_lost value = (ls.lpop r key, none)

  abbrev pub continue_pop : (R → List T → R × List T) → List T → R × Option T → R × List T
  continue_pop go taken (r, none) = (r, taken)
  continue_pop go taken (r, some value) = go r (taken ++ value ∷ [])

  -- The loop for further items, at most n of them.
  unfoldable pub pop_more : ℕ → R → String → List Link → List T → R × List T
  pop_more zero r key links taken = (r, taken)
  pop_more (suc n) r key links taken =
      continue_pop (λ r' t. pop_more n r' key (links_after links) t) taken
        (popped r key (link_of links) (head_of (ls.items r key)))

  -- The answer to the first pop, and the loop that follows it.
  abbrev pub pop_from :
      R → String → ℤ → List Link → Option T → RedisReply (List T) → R × RedisReply (List T)
  pop_from r key max_items links none empty = (r, empty)
  pop_from r key max_items links (some value) empty =
      let (r', taken) = pop_more (to_ℕ max_items - 1) (ls.lpop r key) key links (value ∷ []) in
      (r', answered taken)

  abbrev pub pop_blocking :
      R → String → Link → List Link → ℤ → RedisReply (List T) → R × RedisReply (List T)
  pop_blocking r key replied links max_items empty =
      pop_from r key max_items links (head_of (ls.items r key)) empty
  pop_blocking r key refused links max_items empty = (r, failed)
  pop_blocking r key reply_lost links max_items empty = (ls.lpop r key, failed)

  -- The first link is that of BLPOP, the others those of LPOP.
  unfoldable pub dequeue : R → String → Link → List Link → ℤ → R × RedisReply (List T)
  unfolding pop_more
  dequeue r key link links max_items = pop_blocking r key link links max_items blocked

  -- With a timeout that is not 0, with which BLPOP would block.
  unfoldable pub dequeue_with_timeout : R → String → Link → List Link → ℤ → R × RedisReply (List T)
  unfolding pop_more
  dequeue_with_timeout r key link links max_items =
      pop_blocking r key link links max_items (answered [])

  unfoldable pub queue_length : R → String → Link → RedisReply ℕ
  queue_length r key replied = answered (ls.llen r key)
  queue_length r key refused = failed
  queue_length r key reply_lost = failed
