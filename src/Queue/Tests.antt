-- ===== src/Queue/Tests.antt =====
-- The theorems on the queues at concrete ones.
use think_pixel_llmgw.Prelude.{
  Option, none, sym, ℕ, String, ◌≡◌, refl, false, some, List, [], ◌∷◌, ◌++◌, pos, arith,
}
use think_pixel_llmgw.Queue.{channel, deadline, DeadLetterItem, default_config}
use think_pixel_llmgw.Queue.Memory.{
  MemoryQueue, QueueCall, enqueue_call, dequeue_call, timeout_call, close_call, History, call,
  calls, start,
}
use think_pixel_llmgw.Queue.Memory.Fifo.{calls_fifo}
use think_pixel_llmgw.Redis.{replied, refused, reply_lost, function_lists, function_hashes}
use think_pixel_llmgw.Queue.RedisDeadLetters.Refinement.{
  DeadLetterCall, add_call, remove_call, letter_at, perform_all, apply_all, IsNamed,
  letter_at-perform_all,
}
use think_pixel_llmgw.Queue.RedisQueue
use think_pixel_llmgw.Queue.RedisQueue.Refinement.{Matches, queue-Matches}
use think_pixel_llmgw.Queue.Memory

abbrev queue_calls : List (QueueCall ℕ)
queue_calls =
    enqueue_call channel 1
    ∷ enqueue_call channel 2
    ∷ dequeue_call channel (pos 1)
    ∷ timeout_call deadline (pos 5)
    ∷ enqueue_call channel 3
    ∷ []

abbrev busy : History ℕ
busy = calls (start (default_config "billing")) queue_calls

abbrev waiting_queue : MemoryQueue ℕ
waiting_queue = record { items = 1 ∷ 2 ∷ 3 ∷ []; capacity = 10; closed = false }

abbrev letter : String → ℕ → DeadLetterItem ℕ
letter id item = record { id = id; item = item; error = "refused"; timestamp = 0; retries = 0 }

calls_fifo_example : busy.delivered ++ busy.queue.items ≡ busy.accepted
calls_fifo_example = calls_fifo (default_config "billing") queue_calls

abbrev three_items : String → List ℕ
three_items k = 1 ∷ 2 ∷ 3 ∷ []

queue-Matches_example :
    Matches function_lists "queue:billing"
      (RedisQueue.enqueue function_lists (λ x. some x) three_items "queue:billing" replied 4)
      (Memory.enqueue waiting_queue channel 4)
    × Matches function_lists "queue:billing"
        (RedisQueue.dequeue function_lists three_items "queue:billing" replied [] (pos 2))
        (Memory.dequeue waiting_queue channel (pos 2))
    × Matches function_lists "queue:billing"
        (RedisQueue.dequeue_with_timeout function_lists three_items "queue:billing" replied []
          (pos 2))
        (Memory.dequeue_with_timeout waiting_queue channel (pos 2))
queue-Matches_example =
    queue-Matches function_lists "queue:billing" (λ x. some x) three_items waiting_queue 4 4 (pos 2)
      (refl, refl) refl (omega arith)

abbrev keep : DeadLetterItem ℕ → Option (DeadLetterItem ℕ)
keep d = some d

abbrev no_letters : String → List (String × DeadLetterItem ℕ)
no_letters k = []

abbrev letter_calls : List (DeadLetterCall ℕ)
letter_calls =
    add_call replied "a" 1 7 "refused"
    ∷ add_call reply_lost "b" 2 8 "refused"
    ∷ add_call refused "c" 3 9 "refused"
    ∷ remove_call replied "a"
    ∷ []

letter_at-perform_all_example :
    ((j : String)
      → letter_at function_hashes keep keep
          (λ x. x)
          "dlq:billing"
          (perform_all function_hashes keep keep (λ x. x) "dlq:billing" no_letters letter_calls)
          j
        ≡ apply_all function_hashes keep keep
            (λ x. x)
            "dlq:billing"
            (letter_at function_hashes keep keep (λ x. x) "dlq:billing" no_letters)
            letter_calls
            j)
    × IsNamed function_hashes keep keep
        (λ x. x)
        "dlq:billing"
        (perform_all function_hashes keep keep (λ x. x) "dlq:billing" no_letters letter_calls)
letter_at-perform_all_example =
    letter_at-perform_all function_hashes keep keep (λ x. x) "dlq:billing" letter_calls no_letters
      (λ id now item error v e. sym e) tt

letters_left_test :
    apply_all function_hashes keep keep (λ x. x) "dlq:billing" (λ i. none) letter_calls "b"
    ≡ some (record { id = "b"; item = 8; error = "refused"; timestamp = 2; retries = 0 })
letters_left_test = refl
