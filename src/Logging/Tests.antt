-- ===== src/Logging/Tests.antt =====
-- Runs of the buffer and of the sink, on a server that is a function.
use think_pixel_llmgw.Prelude.{
  ℕ, String, decimal, two_digits, true, Option, some, List, [], ◌∷◌, ◌++◌, map, pos, ◌≡◌, refl,
  arith,
}
use think_pixel_llmgw.Redis.{replied, refused, reply_lost, function_lists}
use think_pixel_llmgw.Logging.{Buffer, all_of}
use think_pixel_llmgw.Logging.Bounded.{
  BufferCall, call_enqueue, call_enqueue_batch, call_dequeue, run, queue_calls, items-run,
}
use think_pixel_llmgw.Logging.Sink.{
  S3SinkConfig, Round, Moment, Stores, flush_all, object_key, json_lines,
}
use think_pixel_llmgw.Logging.Sink.Drained.{flush_all-ends}
use think_pixel_llmgw.Logging.Sink.Complete.{flush_all-IsDrained, concat}

abbrev read_back : String → Option String
read_back x = some x

abbrev gzip : String → String
gzip x = x

abbrev small : Buffer
small = record { queue_key = "logs:queue"; max_size = pos 2; batch_size = 1 }

abbrev empty_lists : String → List String
empty_lists k = []

abbrev calls : List (BufferCall String)
calls =
    call_enqueue replied "a"
    ∷ call_enqueue_batch reply_lost replied ("b" ∷ "c" ∷ [])
    ∷ call_enqueue refused "d"
    ∷ call_dequeue replied (pos 1)
    ∷ []

kept_test : run function_lists read_back read_back small empty_lists calls "logs:queue" ≡ "c" ∷ []
unfolding run
kept_test = refl

queue_test : queue_calls read_back small [] calls ≡ "c" ∷ []
unfolding think_pixel_llmgw.Logging.count_of all_of
queue_test = refl

items-run_example :
    run function_lists read_back read_back small empty_lists calls "logs:queue"
    ≡ queue_calls read_back small [] calls
items-run_example = items-run function_lists read_back read_back small empty_lists calls

abbrev three_lists : String → List String
three_lists k = "a" ∷ "b" ∷ "c" ∷ []

abbrev config : S3SinkConfig
config = record {
  enabled = true;
  flush_size = pos 2;
  s3_bucket = "logs";
  writer = record { prefix = "logs/"; pod_name = "gw-0" };
}

abbrev moment : Moment
moment = record { year = 2025; month = 1; day = 7; unix = 1736208000; nanosecond = 42 }

key_test : object_key config.writer moment ≡ "logs/2025/01/07/gw-0-1736208000-42.jsonl.gz"
unfolding object_key decimal two_digits
key_test = refl

read_test : all_of read_back (three_lists "logs:queue") ≡ some ("a" ∷ "b" ∷ "c" ∷ [])
unfolding all_of
read_test = refl

abbrev working : ℕ → Round
working n = record { dequeued = replied; uploaded = replied; now = moment }

abbrev failing : ℕ → Round
failing n = record { dequeued = replied; uploaded = refused; now = moment }

abbrev stores : Stores (String → List String) String
stores = record { redis = three_lists; bucket = [] }

flush_all-ends_example :
    (s' : Stores (String → List String) String) × (flush_all function_lists read_back read_back
        read_back gzip 4 config small stores failing
      ≡ some s')
flush_all-ends_example =
    flush_all-ends function_lists read_back read_back read_back gzip config small 4 stores failing
      (omega arith)

flush_all-IsDrained_example :
    (s' : Stores (String → List String) String) × (flush_all function_lists read_back read_back
        read_back gzip 4 config small stores working
      ≡ some s')
    × ((s'.redis "logs:queue" ≡ [])
        × (batches : List (List String)) × (map (λ o. o.body) s'.bucket
            ≡ [] ++ map (λ lines. gzip (json_lines lines)) batches)
        × (concat batches ≡ "a" ∷ "b" ∷ "c" ∷ []))
flush_all-IsDrained_example =
    flush_all-IsDrained function_lists read_back read_back read_back gzip config small 4 stores
      working ("a" ∷ "b" ∷ "c" ∷ []) ("a" ∷ "b" ∷ "c" ∷ []) (omega arith) (λ n. refl) (λ n. refl)
      read_test read_test
