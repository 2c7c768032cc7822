-- ===== src/Logging/Sink.antt =====
-- The sink that drains the buffer to S3: llm_gateway/internal/logging/sink.go and s3_writer.go.
-- The bucket is the list of the objects put into it. The encoding of a record, gzip and the clock
-- are parameters; a Link says how a command of Redis and the upload fare.
pub mod Drained
pub mod Complete
use think_pixel_llmgw.Prelude.{
  ℕ, zero, suc, ◌+◌, String, ◌⊕◌, decimal, two_digits, Bool, true, false, ◌&&◌, ◌||◌, Option, none,
  some, List, [], ◌∷◌, ◌++◌, ltb, leb, not, str_eq, if◌then◌else◌, map, ℤ, is_pos, to_ℕ,
}
use think_pixel_llmgw.Redis.{Link, replied, refused, reply_lost, RedisLists}
use think_pixel_llmgw.Logging.{Buffer, all_of, enqueue, dequeue, size, send}

pub record S3Writer : Type 0 where
  pub prefix : String
  pub pod_name : String

-- time.Now().UTC()
pub record Moment : Type 0 where
  pub year : ℕ
  pub month : ℕ
  pub day : ℕ
  pub unix : ℕ
  pub nanosecond : ℕ

pub record S3SinkConfig : Type 0 where
  pub enabled : Bool
  pub flush_size : ℤ
  pub s3_bucket : String
  pub writer : S3Writer

pub data Sink : Type 0 where
  noop_sink : Sink
  s3_sink : S3SinkConfig → Sink

-- The second argument says whether the AWS configuration loads.
unfoldable pub new_sink_from_config : S3SinkConfig → Bool → Option Sink
new_sink_from_config config loads =
    if not config.enabled || str_eq config.s3_bucket ""
    then some noop_sink
    else (if loads then some (s3_sink config) else none)

abbrev pub four_digits : ℕ → String
four_digits n =
    if ltb n 100 then "00" ⊕ two_digits n else (if ltb n 1000 then "0" ⊕ decimal n else decimal n)

unfoldable pub object_key : S3Writer → Moment → String
object_key w now =
    w.prefix
    ⊕ four_digits now.year
    ⊕ "/"
    ⊕ two_digits now.month
    ⊕ "/"
    ⊕ two_digits now.day
    ⊕ "/"
    ⊕ w.pod_name
    ⊕ "-"
    ⊕ decimal now.unix
    ⊕ "-"
    ⊕ decimal now.nanosecond
    ⊕ ".jsonl.gz"

-- An object of the bucket.
pub record Object (B : Type 0) : Type 0 where
  pub key : String
  pub body : B

-- The encoder's output: each record followed by a line feed.
abbrev pub json_lines : List String → String
json_lines [] = ""
json_lines (l ∷ ls) = l ⊕ "\n" ⊕ json_lines ls

-- What an iteration meets: how Dequeue and the upload fare, and the time.
pub record Round : Type 0 where
  pub dequeued : Link
  pub uploaded : Link
  pub now : Moment

module _ {A B : Type 0} (encode : A → Option String) (gzip : String → B) where
  abbrev pub upload :
      S3Writer → List (Object B) → Moment → Link → Option (List String) → List (Object B) × Bool
  upload w bucket now link none = (bucket, false)
  upload w bucket now link (some lines) =
      send bucket (bucket ++ record { key = object_key w now; body = gzip (json_lines lines) } ∷ [])
        link

  -- The result says whether nil is returned.
  unfoldable pub write_batch :
      S3Writer → List (Object B) → Moment → Link → List A → List (Object B) × Bool
  unfolding all_of
  write_batch w bucket now link [] = (bucket, false)
  write_batch w bucket now link (r ∷ rs) = upload w bucket now link (all_of encode (r ∷ rs))

-- Redis and the bucket.
pub record Stores (R B : Type 0) : Type 0 where
  pub redis : R
  pub bucket : List (Object B)

module _ {R T A B : Type 0} (ls : RedisLists R T) (marshal : A → Option T)
    (unmarshal : T → Option A) (encode : A → Option String) (gzip : String → B) where
  unfoldable pub s3_sink_enqueue : Buffer → R → Link → A → R × Bool
  s3_sink_enqueue rb r link rec = enqueue ls marshal unmarshal rb r link rec

  unfoldable pub sink_enqueue : Sink → Buffer → R → Link → A → R × Bool
  unfolding s3_sink_enqueue
  sink_enqueue noop_sink rb r link rec = (r, true)
  sink_enqueue (s3_sink config) rb r link rec = s3_sink_enqueue rb r link rec

  -- What is dequeued is written, unless it is an error or nothing; the Boolean says whether the
  -- loop of flushAll goes on.
  abbrev pub write_dequeued :
      S3SinkConfig → Stores R B → Round → R × Option (List A) → Stores R B × Bool
  write_dequeued config s round (r', none) = (record { redis = r'; bucket = s.bucket }, false)
  write_dequeued config s round (r', some []) = (record { redis = r'; bucket = s.bucket }, false)
  write_dequeued config s round (r', some (a ∷ rest)) =
      let written =
        write_batch encode gzip config.writer s.bucket round.now round.uploaded (a ∷ rest) in
      (record { redis = r'; bucket = written.0 }, true)

  unfoldable pub flush : S3SinkConfig → Buffer → Stores R B → Round → Stores R B
  flush config rb s round =
      (write_dequeued config s round
        (dequeue ls marshal unmarshal rb s.redis round.dequeued config.flush_size)).0

  -- The loop of flushAll on fuel, with what each iteration meets; `none` is out of fuel.
  unfoldable pub flush_all :
      ℕ → S3SinkConfig → Buffer → Stores R B → (ℕ → Round) → Option (Stores R B)
  flush_all zero config rb s rounds = none
  flush_all (suc fuel) config rb s rounds =
      let (s', more) =
        write_dequeued config s (rounds 0)
          (dequeue ls marshal unmarshal rb s.redis (rounds 0).dequeued config.flush_size) in
      let rest = flush_all fuel config rb s' (λ n. rounds (suc n)) in if more then rest else some s'

-- `size >= int64(s.flushSize)`
abbrev pub reaches : ℕ → ℤ → Bool
reaches n flush_size = if is_pos flush_size then leb (to_ℕ flush_size) n else true

-- What the select of run can receive, and what it does then: stopping and a cancelled context end
-- the loop. On a cancelled context no command of Redis is sent.
pub data SinkEvent : Type 0 where
  stopped : (ℕ → Round) → SinkEvent
  cancelled : (ℕ → Round) → SinkEvent
  tick : Round → SinkEvent
  size_tick : Link → Round → SinkEvent

pub data SinkState (S : Type 0) : Type 0 where
  running : S → SinkState S
  ended : S → SinkState S

-- A command with a cancelled context.
abbrev pub unsent : Round → Round
unsent round = record { dequeued = refused; uploaded = refused; now = round.now }

module _ {R T A B : Type 0} (ls : RedisLists R T) (marshal : A → Option T)
    (unmarshal : T → Option A) (encode : A → Option String) (gzip : String → B) where
  unfoldable pub check_size : S3SinkConfig → Buffer → Stores R B → Round → Option ℕ → Stores R B
  unfolding flush
  check_size config rb s round none = s
  check_size config rb s round (some n) =
      if reaches n config.flush_size
      then flush ls marshal unmarshal encode gzip config rb s round
      else s

  abbrev pub end_with : Option (Stores R B) → Option (SinkState (Stores R B))
  end_with none = none
  end_with (some s) = some (ended s)

  -- One turn of the loop of run; the fuel is for flushAll.
  unfoldable pub run_step :
      ℕ → S3SinkConfig → Buffer → Stores R B → SinkEvent → Option (SinkState (Stores R B))
  unfolding flush_all flush check_size size
  run_step fuel config rb s (stopped rounds) =
      end_with (flush_all ls marshal unmarshal encode gzip fuel config rb s rounds)
  run_step fuel config rb s (cancelled rounds) =
      end_with
        (flush_all ls marshal unmarshal encode gzip fuel config rb s (λ n. unsent (rounds n)))
  run_step fuel config rb s (tick round) =
      some (running (flush ls marshal unmarshal encode gzip config rb s round))
  run_step fuel config rb s (size_tick link round) =
      some (running (check_size config rb s round (size ls rb s.redis link)))
