-- ===== src/Logging/Sink/Complete.antt =====
-- With working services the loop of flushAll empties the buffer into the bucket.
use think_pixel_llmgw.Prelude.{
  ℕ, zero, suc, ◌<◌, String, Bool, true, Option, some, List, [], ◌∷◌, ◌++◌, if◌then◌else◌, length,
  take, drop, take-append-drop, length-drop, append_assoc, append-nil, map, ℤ, ◌≡◌, refl, sym, ap,
  ◌∙◌, arith,
}
use think_pixel_llmgw.Redis.{Link, replied, RedisLists, take_range}
use think_pixel_llmgw.Logging.{Buffer, all_of, count_of, pop_script, dequeue}
use think_pixel_llmgw.Logging.Sink.{
  S3SinkConfig, Object, Round, Stores, write_batch, write_dequeued, flush_all, json_lines,
  object_key,
}
use think_pixel_llmgw.Logging.Sink.Drained.{all_of-take, all_of-drop, all_of-length, pop-items}

module _ {ℓ} {T : Type ℓ} where
  take-over : (xs : List T) → take (suc (length xs)) xs ≡ xs
  take-over [] = refl
  take-over (x ∷ xs) = ap (λ l. x ∷ l) (take-over xs)

  drop-length-take : (n : ℕ) (xs : List T) → drop (length (take n xs)) xs ≡ drop n xs
  drop-length-take zero xs = refl
  drop-length-take (suc n) [] = refl
  drop-length-take (suc n) (x ∷ xs) = drop-length-take n xs

  -- A range that is taken is some first elements, one at least where there is one.
  take_range-take : (n : ℕ) (xs : List T) → (k : ℕ) × (take_range n xs ≡ take (suc k) xs)
  take_range-take zero xs = (length xs, sym (take-over xs))
  take_range-take (suc n) xs = (n, refl)

  append-drop : (n : ℕ) (xs : List T) → take n xs ++ drop n xs ≡ xs
  append-drop = take-append-drop

  nil-length : (xs : List T) → length xs ≡ 0 → xs ≡ []
  nil-length [] e = refl
  nil-length (x ∷ xs) e = ground (arith, e)

  abbrev pub concat : List (List T) → List T
  concat [] = []
  concat (xs ∷ xss) = xs ++ concat xss

  pub map-append {κ} :
      {U : Type κ} (f : T → U) (xs ys : List T) → map f (xs ++ ys) ≡ map f xs ++ map f ys
  map-append f [] ys = refl
  map-append f (x ∷ xs) ys = ap (λ l. f x ∷ l) (map-append f xs ys)

module _ {R T A : Type 0} (ls : RedisLists R T) (marshal : A → Option T)
    (unmarshal : T → Option A) where
  -- A Dequeue that is answered takes the same first part of the list and of the records.
  pub dequeue-take :
      (rb : Buffer) (r : R) (count : ℤ) (xs : List A)
      → all_of unmarshal (ls.items r rb.queue_key) ≡ some xs
      → (k : ℕ) × ((dequeue ls marshal unmarshal rb r replied count).1 ≡ some (take (suc k) xs))
        × (ls.items (dequeue ls marshal unmarshal rb r replied count).0 rb.queue_key
            ≡ drop (suc k) (ls.items r rb.queue_key))
  unfolding dequeue pop_script
  dequeue-take rb r count xs e =
      let stored = ls.items r rb.queue_key in
      let (k, same) = take_range-take (count_of rb count) stored in
      let taken = ls.lrange_lem r rb.queue_key (count_of rb count) ∙ same in
      (
        k,
        ap (all_of unmarshal) taken ∙ all_of-take unmarshal (suc k) stored xs e,
        pop-items ls r rb.queue_key (count_of rb count)
            ∙ ap (λ l. drop (length l) stored) taken
            ∙ drop-length-take (suc k) stored,
      )

module _ {R T A B : Type 0} (ls : RedisLists R T) (marshal : A → Option T)
    (unmarshal : T → Option A) (encode : A → Option String) (gzip : String → B)
    (config : S3SinkConfig) (rb : Buffer) where
  abbrev body_of : List String → B
  body_of lines = gzip (json_lines lines)

  -- The buffer is empty, and batches that together are `lines` have been added to the bucket.
  abbrev IsDrained : Stores R B → List String → Stores R B → Type 0
  IsDrained s lines s' =
      (ls.items s'.redis rb.queue_key ≡ [])
      × (batches : List (List String)) × (map (λ o. o.body) s'.bucket
          ≡ map (λ o. o.body) s.bucket ++ map body_of batches)
      × (concat batches ≡ lines)

  write-replied :
      (s : Stores R B) (round : Round) (r : R) (a : A) (xs : List A) (lines : List String)
      → round.uploaded ≡ replied
      → all_of encode (a ∷ xs) ≡ some lines
      → write_dequeued ls marshal unmarshal encode gzip config s round (r, some (a ∷ xs)) ≡ (
        record {
          redis = r;
          bucket =
              s.bucket
              ++ record { key = object_key config.writer round.now; body = body_of lines } ∷ [];
        },
        true,
      )
  unfolding write_batch
  write-replied s round r a xs lines up e = rw (e, up) refl

  -- The loop after an iteration has written, and from the answer of Dequeue on.
  abbrev go_on : ℕ → (ℕ → Round) → Stores R B × Bool → Option (Stores R B)
  go_on fuel rounds (s', more) =
      if more
      then flush_all ls marshal unmarshal encode gzip fuel config rb s' (λ n. rounds (suc n))
      else some s'

  abbrev resume : ℕ → Stores R B → (ℕ → Round) → R × Option (List A) → Option (Stores R B)
  resume fuel s rounds d =
      go_on fuel rounds (write_dequeued ls marshal unmarshal encode gzip config s (rounds 0) d)

  answer :
      (r : R) (link : Link) (o : Option (List A))
      → link ≡ replied
      → (dequeue ls marshal unmarshal rb r replied config.flush_size).1 ≡ o
      → dequeue ls marshal unmarshal rb r link config.flush_size
        ≡ ((dequeue ls marshal unmarshal rb r replied config.flush_size).0, o)
  answer r link o e out =
      ap (λ l. dequeue ls marshal unmarshal rb r l config.flush_size) e
      ∙ ap
          (λ (p : Option (List A)).
            ((dequeue ls marshal unmarshal rb r replied config.flush_size).0, p))
          out

  -- With a server and a bucket that answer every command, records that all decode from Redis and
  -- encode for S3, and more fuel than there are records, flushAll leaves the buffer empty, and the
  -- batches that it has added to the bucket are together the records, in their order.
  pub flush_all-IsDrained :
      (fuel : ℕ) (s : Stores R B) (rounds : ℕ → Round) (xs : List A) (lines : List String)
      → length (ls.items s.redis rb.queue_key) < fuel
      → ((n : ℕ) → (rounds n).dequeued ≡ replied)
      → ((n : ℕ) → (rounds n).uploaded ≡ replied)
      → all_of unmarshal (ls.items s.redis rb.queue_key) ≡ some xs
      → all_of encode xs ≡ some lines
      → (s' : Stores R B) × (flush_all ls marshal unmarshal encode gzip fuel config rb s rounds
          ≡ some s')
        × IsDrained s lines s'
  unfolding flush_all all_of
  flush_all-IsDrained zero s rounds xs lines enough answered stored read written =
      absurd (omega (arith, enough))
  flush_all-IsDrained (suc fuel) s rounds [] lines enough answered stored read written =
      let (k, out, rest) = dequeue-take ls marshal unmarshal rb s.redis config.flush_size [] read in
      let r' = (dequeue ls marshal unmarshal rb s.redis replied config.flush_size).0 in
      let none_left =
        nil-length (ls.items s.redis rb.queue_key)
          (all_of-length unmarshal (ls.items s.redis rb.queue_key) [] read) in
      (
        record { redis = r'; bucket = s.bucket },
        ap (resume fuel s rounds) (answer s.redis (rounds 0).dequeued (some []) (answered 0) out),
        (rest ∙ ap (drop (suc k)) none_left, [], sym (append-nil _), ground (arith, written)),
      )
  flush_all-IsDrained (suc fuel) s rounds (x ∷ xs) lines enough answered stored read written =
      let (k, out, rest) =
        dequeue-take ls marshal unmarshal rb s.redis config.flush_size (x ∷ xs) read in
      let r' = (dequeue ls marshal unmarshal rb s.redis replied config.flush_size).0 in
      let first = take (suc k) lines in
      let obj : Object B = record {
        key = object_key config.writer (rounds 0).now;
        body = body_of first;
      } in
      let next : Stores R B = record { redis = r'; bucket = s.bucket ++ obj ∷ [] } in
      let left = length-drop (suc k) (ls.items s.redis rb.queue_key) in
      let same =
        write-replied s (rounds 0) r' x (take k xs) first (stored 0)
          (all_of-take encode (suc k) (x ∷ xs) lines written) in
      let (s', returned, (empty, batches, bodies, all)) =
        flush_all-IsDrained fuel next (λ n. rounds (suc n)) (drop k xs) (drop (suc k) lines)
          (omega (
            arith,
            enough,
            ap length rest,
            left,
            all_of-length unmarshal (ls.items s.redis rb.queue_key) (x ∷ xs) read,
          ))
          (λ n. answered (suc n)) (λ n. stored (suc n))
          (ap (all_of unmarshal) rest
            ∙ all_of-drop unmarshal (suc k) (ls.items s.redis rb.queue_key) (x ∷ xs) read)
          (all_of-drop encode (suc k) (x ∷ xs) lines written) in
      (
        s',
        ap (resume fuel s rounds)
              (answer s.redis (rounds 0).dequeued (some (x ∷ take k xs)) (answered 0) out)
            ∙ ap (go_on fuel rounds) same
            ∙ returned,
        (
          empty,
          first ∷ batches,
          bodies
              ∙ ap (λ l. l ++ map body_of batches)
                  (map-append (λ (o : Object B). o.body) s.bucket (obj ∷ []))
              ∙ append_assoc (map (λ (o : Object B). o.body) s.bucket) (body_of first ∷ [])
                  (map body_of batches),
          ap (λ l. first ++ l) all ∙ take-append-drop (suc k) lines,
        ),
      )
