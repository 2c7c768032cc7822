-- ===== src/Queue/Memory/Fifo.antt =====
-- The channel queue delivers what it accepted, in order and once, until it is closed.
use think_pixel_llmgw.Prelude.{
  suc, ◌-◌, max, ◌≡◌, refl, sym, ap, ◌∙◌, true, false, List, [], ◌∷◌, ◌++◌, append-nil,
  append_assoc, arith, take-nil, drop-nil, ℤ, pos, negsuc, to_ℕ, length, take, drop, length-append,
  take-append-drop, if-false, Bool-cases, inl, inr,
}
use think_pixel_llmgw.Queue.{Config, Reply, ok, Ready, channel, done, is_below}
use think_pixel_llmgw.Queue.Memory.{
  MemoryQueue, QueueCall, History, new_memory_queue, enqueue, drain, take_items, dequeue,
  dequeue_with_timeout, close, enqueue_call, dequeue_call, timeout_call, close_call, items_of,
  accepted_of, call, calls, start,
}

module _ {ℓ} {A : Type ℓ} where
  is_below-left :
      (max_items : ℤ) (taken : List A) (x : A)
      → is_below (length taken) max_items ≡ true
      → to_ℕ max_items - length taken ≡ suc (to_ℕ max_items - length (taken ++ x ∷ []))
  is_below-left (pos m) taken x h = ground (arith, length-append taken (x ∷ []))
  is_below-left (negsuc m) taken x h = cc

  -- The loop takes items until it has `max_items`.
  drain_lem :
      (max_items : ℤ) (taken l : List A)
      → drain max_items taken l
        ≡ (taken ++ take (to_ℕ max_items - length taken) l, drop (to_ℕ max_items - length taken) l)
  unfolding drain
  drain_lem max_items taken [] = rw (take-nil, drop-nil, append-nil)
  drain_lem max_items taken (x ∷ xs) = elim (Bool-cases (is_below (length taken) max_items)) [
    | inl more ↦
        let left = to_ℕ max_items - length (taken ++ x ∷ []) in
        let fewer : to_ℕ max_items - length taken ≡ suc left =
          is_below-left max_items taken x more in
        rw (more, fewer, drain_lem max_items (taken ++ x ∷ []) xs, append_assoc)
    | inr enough ↦
        let nothing : to_ℕ max_items - length taken ≡ 0 = ground arith in
        rw (enough, nothing, append-nil)
  ]

  -- What a delivery of the first max(1, max_items) of the items `l` gives.
  abbrev pub delivery : MemoryQueue A → ℤ → List A → MemoryQueue A × Reply (List A)
  delivery q max_items l =
      (record q { items = drop (max 1 (to_ℕ max_items)) l }, ok (take (max 1 (to_ℕ max_items)) l))

  -- A delivery takes the first items of the channel, as many as asked for but at least one.
  take_items_lem :
      (q : MemoryQueue A) (max_items : ℤ) (x : A) (xs : List A)
      → take_items q max_items (x ∷ xs) ≡ delivery q max_items (x ∷ xs)
  unfolding take_items
  take_items_lem q max_items x xs =
      let one : max 1 (to_ℕ max_items) ≡ suc (to_ℕ max_items - 1) = omega arith in
      rw (one, drain_lem max_items (x ∷ []) xs)

  -- On an open queue that holds items, Dequeue and DequeueWithTimeout, when their select takes
  -- the channel, deliver its first max(1, maxItems) items, or all if there are fewer, and leave
  -- the others in their order.
  pub dequeue_lem :
      (q : MemoryQueue A) (max_items : ℤ) (x : A) (xs : List A)
      → q.closed ≡ false
      → q.items ≡ x ∷ xs
      → (dequeue q channel max_items ≡ delivery q max_items (x ∷ xs))
        × (dequeue_with_timeout q channel max_items ≡ delivery q max_items (x ∷ xs))
  unfolding dequeue dequeue_with_timeout
  dequeue_lem q max_items x xs is_open full =
      let taken : take_items q max_items q.items ≡ delivery q max_items (x ∷ xs) =
        ap (take_items q max_items) full ∙ take_items_lem q max_items x xs in
      (if-false _ _ is_open ∙ taken, if-false _ _ is_open ∙ taken)

  -- What is delivered and what stays are what was there.
  abbrev IsSplit : List A → MemoryQueue A × Reply (List A) → Type ℓ
  IsSplit l (q, reply) = items_of reply ++ q.items ≡ l

  take_items-IsSplit :
      (q : MemoryQueue A) (max_items : ℤ) (l : List A)
      → q.items ≡ l
      → IsSplit l (take_items q max_items l)
  take_items-IsSplit q max_items [] same = unfold take_items in same
  take_items-IsSplit q max_items (x ∷ xs) same =
      rw take_items_lem (take-append-drop (max 1 (to_ℕ max_items)) (x ∷ xs))

  dequeue-IsSplit :
      (q : MemoryQueue A) (pick : Ready) (max_items : ℤ)
      → IsSplit q.items (dequeue q pick max_items)
  unfolding dequeue
  dequeue-IsSplit q done max_items = ground arith
  dequeue-IsSplit q _ max_items = ground (arith, take_items-IsSplit q max_items q.items refl)

  timeout-IsSplit :
      (q : MemoryQueue A) (pick : Ready) (max_items : ℤ)
      → IsSplit q.items (dequeue_with_timeout q pick max_items)
  unfolding dequeue_with_timeout
  timeout-IsSplit q channel max_items = ground (arith, take_items-IsSplit q max_items q.items refl)
  timeout-IsSplit q _ max_items = ground arith

  -- An accepted item stands at the end, and nothing else changes the items.
  enqueue_items :
      (q : MemoryQueue A) (pick : Ready) (item : A)
      → (enqueue q pick item).0.items ≡ q.items ++ accepted_of item (enqueue q pick item).1
  unfolding enqueue
  enqueue_items q done item = ground (arith, append-nil q.items)
  enqueue_items q _ item = ground (arith, append-nil q.items)

  abbrev IsAccounted : History A → Type ℓ
  IsAccounted h = h.delivered ++ h.queue.items ≡ h.accepted

  split_accounted :
      (h : History A) (result : MemoryQueue A × Reply (List A))
      → IsSplit h.queue.items result
      → IsAccounted h
      → (h.delivered ++ items_of result.1) ++ result.0.items ≡ h.accepted
  split_accounted h (q, reply) split acc =
      append_assoc h.delivered (items_of reply) q.items ∙ ap (λ l. h.delivered ++ l) split ∙ acc

  call-IsAccounted : (h : History A) (c : QueueCall A) → IsAccounted h → IsAccounted (call h c)
  unfolding call
  call-IsAccounted h (enqueue_call pick item) acc =
      ap (λ l. h.delivered ++ l) (enqueue_items h.queue pick item)
      ∙ sym (append_assoc h.delivered h.queue.items _)
      ∙ ap (λ l. l ++ accepted_of item (enqueue h.queue pick item).1) acc
  call-IsAccounted h (dequeue_call pick max_items) acc =
      split_accounted h (dequeue h.queue pick max_items) (dequeue-IsSplit h.queue pick max_items)
        acc
  call-IsAccounted h (timeout_call pick max_items) acc =
      split_accounted h (dequeue_with_timeout h.queue pick max_items)
        (timeout-IsSplit h.queue pick max_items) acc
  call-IsAccounted h close_call acc = unfold close in acc

  calls-IsAccounted :
      (h : History A) (cs : List (QueueCall A)) → IsAccounted h → IsAccounted (calls h cs)
  unfolding calls
  calls-IsAccounted h [] acc = acc
  calls-IsAccounted h (c ∷ cs) acc = calls-IsAccounted (call h c) cs (call-IsAccounted h c acc)

  -- After any calls of Enqueue, Dequeue, DequeueWithTimeout and Close on a new queue, whatever
  -- cases their selects take, the items delivered so far followed by those in the channel
  -- are the items accepted so far, in the order of acceptance.
  pub calls_fifo :
      (config : Config) (cs : List (QueueCall A))
      → let h = calls (start config) cs in h.delivered ++ h.queue.items ≡ h.accepted
  calls_fifo config cs = calls-IsAccounted (start config) cs (unfold new_memory_queue in refl)
