-- ===== src/Logging/Bounded.antt =====
-- The buffer as a bounded queue of values: what the calls leave in the list of Redis.
use think_pixel_llmgw.Prelude.{
  ℕ, zero, suc, ◌-◌, String, Option, none, some, List, [], ◌∷◌, ◌++◌, ltb, length, take, drop, ℤ,
  is_pos, to_ℕ, ◌≡◌, refl, sym, ap, ◌∙◌, arith, Bool-cases, inl, inr, if◌then◌else◌,
}
use think_pixel_llmgw.Redis.{Link, replied, refused, reply_lost, RedisLists, take_range}
use think_pixel_llmgw.Logging.{
  Buffer, all_of, count_of, push_script, push, send, send_some, enqueue, push_all, push_marshalled,
  enqueue_batch, pop_script, dequeue,
}

-- The calls that change the list of the buffer, each with how its commands fare.
pub data BufferCall {ℓ} (A : Type ℓ) : Type ℓ where
  call_enqueue : Link → A → BufferCall A
  call_enqueue_batch : Link → Link → List A → BufferCall A
  call_dequeue : Link → ℤ → BufferCall A

-- The last `max` elements, or all of them where there are fewer.
abbrev pub keep_last {ℓ} : {T : Type ℓ} → ℕ → List T → List T
keep_last max xs = drop (length xs - max) xs

-- The newest elements that fit; a maximum size that is not positive is none.
abbrev pub newest {ℓ} : {T : Type ℓ} → Buffer → List T → List T
newest rb xs = if is_pos rb.max_size then keep_last (to_ℕ rb.max_size) xs else xs

-- What a command does that may not be run.
abbrev pub if_run {ℓ} : {T : Type ℓ} → Link → T → T → T
if_run refused before after = before
if_run replied before after = after
if_run reply_lost before after = after

-- The elements behind the first `count`; a count of 0 is all of them.
abbrev pub behind {ℓ} : {T : Type ℓ} → ℕ → List T → List T
behind zero xs = []
behind (suc n) xs = drop (suc n) xs

abbrev pub append_value {ℓ} : {T : Type ℓ} → Buffer → Link → Option T → List T → List T
append_value rb link none xs = xs
append_value rb link (some value) xs = if_run link xs (newest rb (xs ++ value ∷ []))

abbrev pub append_values {ℓ} :
    {T : Type ℓ} → Buffer → Link → Link → Option (List T) → List T → List T
append_values rb push_link trim_link none xs = xs
append_values rb push_link trim_link (some values) xs =
    let pushed = if_run push_link xs (xs ++ values) in if_run trim_link pushed (newest rb pushed)

-- The bounded queue: a value is appended, and then the oldest are dropped down to the maximum
-- size; Dequeue takes from the front.
abbrev pub queue_call {ℓ} :
    {T A : Type ℓ} → (A → Option T) → Buffer → List T → BufferCall A → List T
queue_call marshal rb xs (call_enqueue link x) = append_value rb link (marshal x) xs
queue_call marshal rb xs (call_enqueue_batch push_link trim_link []) = xs
queue_call marshal rb xs (call_enqueue_batch push_link trim_link (y ∷ ys)) =
    append_values rb push_link trim_link (all_of marshal (y ∷ ys)) xs
queue_call marshal rb xs (call_dequeue link count) = if_run link xs (behind (count_of rb count) xs)

abbrev pub queue_calls {ℓ} :
    {T A : Type ℓ} → (A → Option T) → Buffer → List T → List (BufferCall A) → List T
queue_calls marshal rb xs [] = xs
queue_calls marshal rb xs (c ∷ cs) = queue_calls marshal rb (queue_call marshal rb xs c) cs

drop_all {ℓ} : {T : Type ℓ} (xs : List T) → drop (length xs) xs ≡ []
drop_all [] = refl
drop_all (x ∷ xs) = drop_all xs

drop-take {ℓ} : {T : Type ℓ} (n : ℕ) (xs : List T) → drop (length (take n xs)) xs ≡ drop n xs
drop-take zero xs = refl
drop-take (suc n) [] = refl
drop-take (suc n) (x ∷ xs) = drop-take n xs

drop_taken {ℓ} :
    {T : Type ℓ} (n : ℕ) (xs : List T) → drop (length (take_range n xs)) xs ≡ behind n xs
drop_taken zero xs = drop_all xs
drop_taken (suc n) xs = drop-take (suc n) xs

if_run_same {ℓ} : {T : Type ℓ} (link : Link) (x : T) → if_run link x x ≡ x
if_run_same replied x = refl
if_run_same refused x = refl
if_run_same reply_lost x = refl

module _ {ℓ} {R T : Type ℓ} (ls : RedisLists R T) where
  push_script-items :
      (r : R) (key : String) (value : T) (max : ℕ)
      → ls.items (push_script ls r key value max) key ≡ keep_last max (ls.items r key ++ value ∷ [])
  unfolding push_script
  push_script-items r key value max =
      let pushed = ls.rpush r key (value ∷ []) in
      let same = ls.items-rpush r key (value ∷ []) in
      let len = ls.llen_lem pushed key ∙ ap length same in
      elim (Bool-cases (ltb max (ls.llen pushed key))) [
        | inl over ↦ rw over (
            ls.items-ltrim pushed key (ls.llen pushed key - max)
            ∙ ap (drop (ls.llen pushed key - max)) same
            ∙ ap (λ n. drop (n - max) (ls.items r key ++ value ∷ [])) len)
        | inr under ↦
            let fits : length (ls.items r key ++ value ∷ []) - max ≡ 0 =
              ground (arith, under, len) in
            rw under (same ∙ sym (ap (λ n. drop n (ls.items r key ++ value ∷ [])) fits))
      ]

  push-items :
      (rb : Buffer) (r : R) (value : T)
      → ls.items (push ls rb r value) rb.queue_key
        ≡ newest rb (ls.items r rb.queue_key ++ value ∷ [])
  unfolding push
  push-items rb r value = elim (Bool-cases (is_pos rb.max_size)) [
    | inl limited ↦ rw limited (push_script-items r rb.queue_key value (to_ℕ rb.max_size))
    | inr unlimited ↦ rw unlimited (ls.items-rpush r rb.queue_key (value ∷ []))
  ]

  items-send :
      (r after : R) (link : Link) (key : String)
      → ls.items (send r after link).0 key ≡ if_run link (ls.items r key) (ls.items after key)
  items-send r after replied key = refl
  items-send r after refused key = refl
  items-send r after reply_lost key = refl

  push_all-items :
      (rb : Buffer) (r : R) (push_link trim_link : Link) (values : List T)
      → ls.items (push_all ls rb r push_link trim_link values).0 rb.queue_key
        ≡ append_values rb push_link trim_link (some values) (ls.items r rb.queue_key)
  unfolding push_all
  push_all-items rb r push_link trim_link values =
      let key = rb.queue_key in
      let max = to_ℕ rb.max_size in
      let pushed = (send r (ls.rpush r key values) push_link).0 in
      let same : ls.items pushed key
          ≡ if_run push_link (ls.items r key) (ls.items r key ++ values) =
        items-send r (ls.rpush r key values) push_link key
        ∙ ap (if_run push_link (ls.items r key)) (ls.items-rpush r key values) in
      elim (Bool-cases (is_pos rb.max_size)) [
        | inl limited ↦ rw limited (
            items-send pushed (ls.ltrim_last pushed key max) trim_link key
            ∙ ap (if_run trim_link (ls.items pushed key)) (ls.items-ltrim_last pushed key max)
            ∙ ap (λ l. if_run trim_link l (keep_last max l)) same)
        | inr unlimited ↦ rw unlimited (same ∙ sym (if_run_same trim_link _))
      ]

  pop_script-items :
      (r : R) (key : String) (count : ℕ)
      → ls.items (pop_script ls r key count).0 key ≡ behind count (ls.items r key)
  unfolding pop_script
  pop_script-items r key count =
      let n = length (ls.lrange r key count) in
      let taken : drop n (ls.items r key) ≡ behind count (ls.items r key) =
        ap (λ l. drop (length l) (ls.items r key)) (ls.lrange_lem r key count)
        ∙ drop_taken count (ls.items r key) in
      elim (Bool-cases (ltb 0 n)) [
        | inl some_ ↦ rw some_ (ls.items-ltrim r key n ∙ taken)
        | inr nothing ↦
            let is : n ≡ 0 = ground (arith, nothing) in
            rw nothing (sym (ap (λ m. drop m (ls.items r key)) is) ∙ taken)
      ]

module _ {ℓ} {R T A : Type ℓ} (ls : RedisLists R T) (marshal : A → Option T)
    (unmarshal : T → Option A) (rb : Buffer) where
  unfoldable pub call : R → BufferCall A → R
  unfolding enqueue enqueue_batch dequeue
  call r (call_enqueue link x) = (enqueue ls marshal unmarshal rb r link x).0
  call r (call_enqueue_batch push_link trim_link xs) =
      (enqueue_batch ls marshal unmarshal rb r push_link trim_link xs).0
  call r (call_dequeue link count) = (dequeue ls marshal unmarshal rb r link count).0

  unfoldable pub run : R → List (BufferCall A) → R
  unfolding call
  run r [] = r
  run r (c ∷ cs) = run (call r c) cs

  enqueue-items :
      (r : R) (link : Link) (o : Option T)
      → ls.items (send_some r link (push ls rb r) o).0 rb.queue_key
        ≡ append_value rb link o (ls.items r rb.queue_key)
  enqueue-items r link none = refl
  enqueue-items r link (some value) =
      items-send ls r (push ls rb r value) link rb.queue_key
      ∙ ap (if_run link (ls.items r rb.queue_key)) (push-items ls rb r value)

  enqueue_batch-items :
      (r : R) (push_link trim_link : Link) (o : Option (List T))
      → ls.items (push_marshalled ls rb r push_link trim_link o).0 rb.queue_key
        ≡ append_values rb push_link trim_link o (ls.items r rb.queue_key)
  enqueue_batch-items r push_link trim_link none = refl
  enqueue_batch-items r push_link trim_link (some values) =
      push_all-items ls rb r push_link trim_link values

  items-call :
      (r : R) (c : BufferCall A)
      → ls.items (call r c) rb.queue_key ≡ queue_call marshal rb (ls.items r rb.queue_key) c
  unfolding call enqueue enqueue_batch dequeue
  items-call r (call_enqueue link x) = enqueue-items r link (marshal x)
  items-call r (call_enqueue_batch push_link trim_link []) = refl
  items-call r (call_enqueue_batch push_link trim_link (y ∷ ys)) =
      enqueue_batch-items r push_link trim_link (all_of marshal (y ∷ ys))
  items-call r (call_dequeue replied count) = pop_script-items ls r rb.queue_key (count_of rb count)
  items-call r (call_dequeue refused count) = refl
  items-call r (call_dequeue reply_lost count) =
      pop_script-items ls r rb.queue_key (count_of rb count)

  -- After any calls of Enqueue, EnqueueBatch and Dequeue, whatever becomes of each command, the
  -- list of Redis holds exactly what a bounded queue holds: an Enqueue that is run appends its
  -- value and keeps the newest values up to the maximum size, a RPUSH of EnqueueBatch that is
  -- run appends all its values and a LTRIM that is run keeps the newest, a Dequeue that is run
  -- removes its count of the oldest values (all of them where the count and the batch size are
  -- 0), and what is not run or not marshalled changes nothing.
  pub items-run :
      (r : R) (cs : List (BufferCall A))
      → ls.items (run r cs) rb.queue_key ≡ queue_calls marshal rb (ls.items r rb.queue_key) cs
  unfolding run
  items-run r [] = refl
  items-run r (c ∷ cs) =
      items-run (call r c) cs ∙ ap (λ xs. queue_calls marshal rb xs cs) (items-call r c)
