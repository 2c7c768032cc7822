-- ===== src/Queue/Memory/Closing.antt =====
-- What closing the channel queue leaves behind.
use think_pixel_llmgw.Prelude.{◌≡◌, refl, true, List, [], ◌∷◌, append-nil, ℤ, if-true, sym}
use think_pixel_llmgw.Queue.{err, Ready, channel, deadline, done, queue_closed}
use think_pixel_llmgw.Queue.Memory.{
  MemoryQueue, QueueCall, History, enqueue, dequeue, dequeue_with_timeout, close, enqueue_call,
  dequeue_call, timeout_call, close_call, call, calls,
}

module _ {ℓ} {A : Type ℓ} where
  enqueue_closed :
      (q : MemoryQueue A) (pick : Ready) (item : A)
      → q.closed ≡ true
      → enqueue q pick item ≡ (q, err queue_closed)
  unfolding enqueue
  enqueue_closed q done item e = if-true _ _ e
  enqueue_closed q _ item e = if-true _ _ e

  dequeue_closed :
      (q : MemoryQueue A) (pick : Ready) (max_items : ℤ)
      → q.closed ≡ true
      → dequeue q pick max_items ≡ (q, err queue_closed)
  unfolding dequeue
  dequeue_closed q done max_items e = if-true _ _ e
  dequeue_closed q _ max_items e = if-true _ _ e

  timeout_closed :
      (q : MemoryQueue A) (pick : Ready) (max_items : ℤ)
      → q.closed ≡ true
      → dequeue_with_timeout q pick max_items ≡ (q, err queue_closed)
  unfolding dequeue_with_timeout
  timeout_closed q channel max_items e = if-true _ _ e
  timeout_closed q deadline max_items e = if-true _ _ e
  timeout_closed q done max_items e = if-true _ _ e

  closed_call : (h : History A) (c : QueueCall A) → h.queue.closed ≡ true → call h c ≡ h
  unfolding call
  closed_call h (enqueue_call pick item) e = rw (enqueue_closed h.queue pick item e, append-nil)
  closed_call h (dequeue_call pick max_items) e =
      rw (dequeue_closed h.queue pick max_items e, append-nil)
  closed_call h (timeout_call pick max_items) e =
      rw (timeout_closed h.queue pick max_items e, append-nil)
  closed_call h close_call e =
      unfold close in λ i. record h { queue = record h.queue { closed = sym e i } }

  closed_calls : (h : History A) (cs : List (QueueCall A)) → h.queue.closed ≡ true → calls h cs ≡ h
  unfolding calls
  closed_calls h [] e = refl
  closed_calls h (c ∷ cs) e = rw (closed_call h c e) (closed_calls h cs e)

  -- Once Close has returned, no later call delivers or accepts anything: the items that were in
  -- the channel stay there for good.
  pub close_strands :
      (h : History A) (cs : List (QueueCall A))
      → let after = calls (call h close_call) cs in
        (after.delivered ≡ h.delivered)
        × (after.accepted ≡ h.accepted)
        × (after.queue.items ≡ h.queue.items)
  close_strands h cs =
      let same = closed_calls (call h close_call) cs (unfold call close in refl) in
      rw same (unfold call close in (refl, refl, refl))
