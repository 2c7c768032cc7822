-- ===== src/Queue/RedisQueue/Refinement.antt =====
-- With a server that answers, the Redis queue does what the channel queue does.
use think_pixel_llmgw.Prelude.{
  ℕ, zero, suc, ◌-◌, ◌<◌, max, String, true, false, Option, some, List, [], ◌∷◌, ◌++◌, ltb, length,
  take, drop, append-nil, append_assoc, ℤ, to_ℕ, ◌≡◌, refl, sym, ap, ◌∙◌, subst, arith, if-false,
  if◌then◌else◌,
}
use think_pixel_llmgw.Redis.{replied, RedisLists, head_of, tail_of}
use think_pixel_llmgw.Queue.{Reply, ok, err, waits, queue_closed, Ready, channel, deadline}
use think_pixel_llmgw.Queue.Memory.{MemoryQueue}
use think_pixel_llmgw.Queue.Memory
use think_pixel_llmgw.Queue.Memory.Fifo.{dequeue_lem, delivery}
use think_pixel_llmgw.Queue.RedisQueue.{
  RedisReply, answered, failed, blocked, enqueue, popped, continue_pop, pop_more, pop_from, dequeue,
  dequeue_with_timeout,
}

module _ {ℓ} {R T : Type ℓ} (ls : RedisLists R T) (key : String) where
  abbrev next : ℕ → R → List T → List T → R × List T
  next n r taken l =
      continue_pop ls (λ r' t. pop_more ls n r' key [] t) taken
        (popped ls r key replied (head_of l))

  -- The loop takes the first n of the items that are left.
  pop_more_lem :
      (n : ℕ) (r : R) (taken l : List T)
      → ls.items r key ≡ l
      → ((pop_more ls n r key [] taken).1 ≡ taken ++ take n l)
        × (ls.items (pop_more ls n r key [] taken).0 key ≡ drop n l)
  unfolding pop_more
  pop_more_lem zero r taken l same = (sym (append-nil taken), same)
  pop_more_lem (suc n) r taken [] same =
      let at = ap (next n r taken) same in
      (
        ap (λ (p : R × List T). p.1) at ∙ sym (append-nil taken),
        ap (λ (p : R × List T). ls.items p.0 key) at ∙ same,
      )
  pop_more_lem (suc n) r taken (x ∷ xs) same =
      let at = ap (next n r taken) same in
      let (got, left) =
        pop_more_lem n (ls.lpop r key) (taken ++ x ∷ []) xs
          (ls.items-lpop r key ∙ ap tail_of same) in
      (
        ap (λ (p : R × List T). p.1) at ∙ got ∙ append_assoc taken (x ∷ []) (take n xs),
        ap (λ (p : R × List T). ls.items p.0 key) at ∙ left,
      )

  -- The channel queue `q` holds the items of the list, and is open.
  abbrev pub Holds : R → MemoryQueue T → Type ℓ
  Holds r q = (ls.items r key ≡ q.items) × (q.closed ≡ false)

  -- The reply of the channel queue, as one of the Redis queue.
  abbrev pub as_redis {κ} : {A : Type κ} → Reply A → RedisReply A
  as_redis (ok a) = answered a
  as_redis (err e) = failed
  as_redis waits = blocked

  -- Both queues reply alike and hold the same items.
  abbrev pub Matches {κ} : {A : Type κ} → R × RedisReply A → MemoryQueue T × Reply A → Type (ℓ ⊔ κ)
  Matches (r, reply) (q, reply') = (reply ≡ as_redis reply') × Holds r q

  pop_from-Matches :
      (r : R) (q : MemoryQueue T) (max_items : ℤ) (x : T) (xs : List T)
      (empty : RedisReply (List T))
      → ls.items r key ≡ x ∷ xs
      → q.closed ≡ false
      → Matches (pop_from ls r key max_items [] (some x) empty) (delivery q max_items (x ∷ xs))
  pop_from-Matches r q max_items x xs empty same is_open =
      let (got, left) =
        pop_more_lem (to_ℕ max_items - 1) (ls.lpop r key) (x ∷ []) xs
          (ls.items-lpop r key ∙ ap tail_of same) in
      let one : max 1 (to_ℕ max_items) ≡ suc (to_ℕ max_items - 1) = omega arith in
      (ap answered got ∙ rw one refl, (left ∙ rw one refl, is_open))

  enqueue-Matches :
      {A : Type ℓ} (marshal : A → Option T) (r : R) (q : MemoryQueue T) (item : A) (v : T)
      → Holds r q
      → marshal item ≡ some v
      → length q.items < q.capacity
      → Matches (enqueue ls marshal r key replied item) (Memory.enqueue q channel v)
  unfolding enqueue Memory.enqueue
  enqueue-Matches marshal r q item v (same, is_open) sent room =
      let added = ls.items-rpush r key (v ∷ []) ∙ ap (λ l. l ++ v ∷ []) same in
      let fits : ltb (length q.items) q.capacity ≡ true = ground (arith, room) in
      rw (sent, is_open, fits) (refl, (added, refl))

  -- Which case the select of the channel queue takes: the channel, or for want of items the deadline.
  abbrev pub ready_for : List T → Ready
  ready_for [] = deadline
  ready_for (x ∷ xs) = channel

  IsMatched : R → MemoryQueue T → ℤ → List T → Type ℓ
  IsMatched r q max_items l =
      Matches (dequeue ls r key replied [] max_items) (Memory.dequeue q channel max_items)
      × Matches (dequeue_with_timeout ls r key replied [] max_items)
          (Memory.dequeue_with_timeout q (ready_for l) max_items)

  empty-IsMatched :
      (r : R) (q : MemoryQueue T) (max_items : ℤ)
      → ls.items r key ≡ []
      → q.items ≡ []
      → q.closed ≡ false
      → IsMatched r q max_items []
  unfolding IsMatched dequeue dequeue_with_timeout Memory.dequeue Memory.dequeue_with_timeout
      Memory.take_items
  empty-IsMatched r q max_items same there is_open =
      let holds : Holds r q = (same ∙ sym there, is_open) in
      let waited : Matches (pop_from ls r key max_items [] (head_of (ls.items r key)) blocked)
          (if q.closed then (q, err queue_closed) else Memory.take_items q max_items q.items) =
        subst
          (λ o.
            Matches (pop_from ls r key max_items [] o blocked)
              (if q.closed then (q, err queue_closed) else Memory.take_items q max_items q.items))
          (sym (ap head_of same))
          (subst (Matches (r, blocked))
            (sym (if-false _ _ is_open ∙ ap (Memory.take_items q max_items) there))
            (refl, holds)) in
      (
        waited,
        subst
            (λ o.
              Matches (pop_from ls r key max_items [] o (answered []))
                (if q.closed then (q, err queue_closed) else (q, ok [])))
            (sym (ap head_of same))
            (subst (Matches (r, answered [])) (sym (if-false _ _ is_open)) (refl, holds)),
      )

  full-IsMatched :
      (r : R) (q : MemoryQueue T) (max_items : ℤ) (x : T) (xs : List T)
      → ls.items r key ≡ x ∷ xs
      → q.items ≡ x ∷ xs
      → q.closed ≡ false
      → IsMatched r q max_items (x ∷ xs)
  unfolding IsMatched dequeue dequeue_with_timeout
  full-IsMatched r q max_items x xs same there is_open =
      let (taken, timed) = dequeue_lem q max_items x xs is_open there in
      let at = λ (empty : RedisReply (List T)).
        subst
          (λ o. Matches (pop_from ls r key max_items [] o empty) (delivery q max_items (x ∷ xs)))
          (sym (ap head_of same)) (pop_from-Matches r q max_items x xs empty same is_open) in
      (
        subst (Matches (pop_from ls r key max_items [] (head_of (ls.items r key)) blocked))
            (sym taken) (at blocked),
        subst (Matches (pop_from ls r key max_items [] (head_of (ls.items r key)) (answered [])))
            (sym timed) (at (answered [])),
      )

  dequeue-IsMatched :
      (r : R) (q : MemoryQueue T) (max_items : ℤ) (l : List T)
      → ls.items r key ≡ l
      → q.items ≡ l
      → q.closed ≡ false
      → IsMatched r q max_items l
  dequeue-IsMatched r q max_items [] same there is_open =
      empty-IsMatched r q max_items same there is_open
  dequeue-IsMatched r q max_items (x ∷ xs) same there is_open =
      full-IsMatched r q max_items x xs same there is_open

  -- On a server that answers every command, the Redis queue refines an open channel queue that
  -- holds the same items: Enqueue, where the channel has room, Dequeue and DequeueWithTimeout
  -- reply alike on both, and leave the same items; on no items Dequeue blocks on both, and
  -- DequeueWithTimeout returns none of them after the timeout.
  pub queue-Matches :
      {A : Type ℓ} (marshal : A → Option T) (r : R) (q : MemoryQueue T) (item : A) (v : T)
      (max_items : ℤ)
      → Holds r q
      → marshal item ≡ some v
      → length q.items < q.capacity
      → Matches (enqueue ls marshal r key replied item) (Memory.enqueue q channel v)
        × Matches (dequeue ls r key replied [] max_items) (Memory.dequeue q channel max_items)
        × Matches
            (dequeue_with_timeout ls r key replied [] max_items)
            (Memory.dequeue_with_timeout q (ready_for q.items) max_items)
  unfolding IsMatched
  queue-Matches marshal r q item v max_items (same, is_open) sent room =
      let (taken, timed) = dequeue-IsMatched r q max_items q.items same refl is_open in
      (enqueue-Matches marshal r q item v (same, is_open) sent room, taken, timed)
