-- ===== src/Logging.antt =====
-- The request log: the Redis buffer of llm_gateway/internal/logging/redis_buffer.go and the sink of
-- sink.go that drains it to S3. JSON (`marshal`, `unmarshal`) and the S3 writer are parameters.
-- A Link says how a call of Redis fares.
pub mod Bounded
pub mod Sink
mod Tests
use think_pixel_llmgw.Prelude.{
  ℕ, zero, suc, ◌+◌, ◌-◌, String, Bool, true, false, ◌&&◌, Option, none, some, List, [], ◌∷◌, ◌++◌,
  ltb, leb, ◌==◌, if◌then◌else◌, length, ℤ, pos, negsuc, is_pos, to_ℕ,
}
use think_pixel_llmgw.Redis.{Link, replied, refused, reply_lost, RedisLists, head_of}

-- RedisBuffer, less its client; a batch size is not negative.
pub record Buffer : Type 0 where
  pub queue_key : String
  pub max_size : ℤ
  pub batch_size : ℕ

pub record BufferStats : Type 0 where
  pub queue_size : ℕ
  pub max_size : ℤ
  pub batch_size : ℕ

abbrev pub default_config : Buffer
default_config = record { queue_key = "logs:queue"; max_size = pos 100000; batch_size = 100 }

-- json.Marshal or json.Unmarshal of every one, or the first error.
unfoldable pub all_of {ℓ} : {A B : Type ℓ} → (A → Option B) → List A → Option (List B)
all_of f [] = some []
all_of f (x ∷ xs) = elim (f x) [
  | none ↦ none
  | some y ↦ elim (all_of f xs) [ none ↦ none | some ys ↦ some (y ∷ ys) ]
]

-- `if count <= 0 { count = rb.batchSize }`
unfoldable pub count_of : Buffer → ℤ → ℕ
count_of rb count = if is_pos count then to_ℕ count else rb.batch_size

-- The result says whether nil is returned.
abbrev pub send {ℓ} : {R : Type ℓ} → R → R → Link → R × Bool
send before after replied = (after, true)
send before after refused = (before, false)
send before after reply_lost = (after, false)

-- What was marshalled is sent; an error of json.Marshal returns before.
abbrev pub send_some {ℓ} : {R V : Type ℓ} → R → Link → (V → R) → Option V → R × Bool
send_some r link f none = (r, false)
send_some r link f (some value) = send r (f value) link

module _ {ℓ} {R T : Type ℓ} (ls : RedisLists R T) where
  -- The script of Enqueue.
  unfoldable pub push_script : R → String → T → ℕ → R
  push_script r key value max =
      let pushed = ls.rpush r key (value ∷ []) in
      let len = ls.llen pushed key in
      if ltb max len then ls.ltrim pushed key (len - max) else pushed

  -- What is sent, before its reply is known.
  unfoldable pub push : Buffer → R → T → R
  unfolding push_script
  push rb r value =
      if is_pos rb.max_size
      then push_script r rb.queue_key value (to_ℕ rb.max_size)
      else ls.rpush r rb.queue_key (value ∷ [])

  -- The pipeline of EnqueueBatch is no transaction: RPUSH and LTRIM fare each on its own, and an
  -- error of either is the error of the whole.
  unfoldable pub push_all : Buffer → R → Link → Link → List T → R × Bool
  push_all rb r push_link trim_link values =
      let (pushed, is_pushed) = send r (ls.rpush r rb.queue_key values) push_link in
      let (trimmed, is_trimmed) =
        send pushed (ls.ltrim_last pushed rb.queue_key (to_ℕ rb.max_size)) trim_link in
      if is_pos rb.max_size then (trimmed, is_pushed && is_trimmed) else (pushed, is_pushed)

  abbrev pub push_marshalled : Buffer → R → Link → Link → Option (List T) → R × Bool
  push_marshalled rb r push_link trim_link none = (r, false)
  push_marshalled rb r push_link trim_link (some values) = push_all rb r push_link trim_link values

  -- The script of Dequeue: what it returns, and the state that it leaves.
  unfoldable pub pop_script : R → String → ℕ → R × List T
  pop_script r key count =
      let values = ls.lrange r key count in
      (if ltb 0 (length values) then ls.ltrim r key (length values) else r, values)

  unfoldable pub size : Buffer → R → Link → Option ℕ
  size rb r replied = some (ls.llen r rb.queue_key)
  size rb r _ = none

  unfoldable pub clear : Buffer → R → Link → R × Bool
  clear rb r link = send r (ls.del r rb.queue_key) link

  unfoldable pub is_empty : Buffer → R → Link → Option Bool
  unfolding size
  is_empty rb r link = elim (size rb r link) [ none ↦ none | some n ↦ some (n == 0) ]

  unfoldable pub get_stats : Buffer → R → Link → Option BufferStats
  unfolding size
  get_stats rb r link = elim (size rb r link) [
    | none ↦ none
    | some n ↦ some (record { queue_size = n; max_size = rb.max_size; batch_size = rb.batch_size })
  ]

module _ {ℓ} {R T A : Type ℓ} (ls : RedisLists R T) (marshal : A → Option T)
    (unmarshal : T → Option A) where
  unfoldable pub enqueue : Buffer → R → Link → A → R × Bool
  unfolding push
  enqueue rb r link record_ = send_some r link (push ls rb r) (marshal record_)

  -- The links are those of RPUSH and LTRIM.
  unfoldable pub enqueue_batch : Buffer → R → Link → Link → List A → R × Bool
  unfolding push_all all_of
  enqueue_batch rb r push_link trim_link [] = (r, true)
  enqueue_batch rb r push_link trim_link (x ∷ xs) =
      push_marshalled ls rb r push_link trim_link (all_of marshal (x ∷ xs))

  -- `none` is an error.
  unfoldable pub dequeue : Buffer → R → Link → ℤ → R × Option (List A)
  unfolding pop_script count_of all_of
  dequeue rb r refused count = (r, none)
  dequeue rb r reply_lost count = ((pop_script ls r rb.queue_key (count_of rb count)).0, none)
  dequeue rb r replied count =
      let (r', values) = pop_script ls r rb.queue_key (count_of rb count) in
      (r', all_of unmarshal values)

  unfoldable pub peek : Buffer → R → Link → ℤ → Option (List A)
  unfolding count_of all_of
  peek rb r replied count = all_of unmarshal (ls.lrange r rb.queue_key (count_of rb count))
  peek rb r _ count = none

  -- BLPOP; with no record until the timeout it returns none of them, and no error.
  unfoldable pub wait_for_records : Buffer → R → Link → R × Option (List A)
  wait_for_records rb r refused = (r, none)
  wait_for_records rb r reply_lost = (ls.lpop r rb.queue_key, none)
  wait_for_records rb r replied = elim (head_of (ls.items r rb.queue_key)) [
    | none ↦ (r, some [])
    | some value ↦
        (ls.lpop r rb.queue_key, elim (unmarshal value) [ none ↦ none | some a ↦ some (a ∷ []) ])
  ]
