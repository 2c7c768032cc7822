-- ===== src/Logging/Sink/Drained.antt =====
-- The loop of flushAll ends, and with working services it empties the buffer into the bucket.
use think_pixel_llmgw.Prelude.{
  ℕ, zero, suc, ◌+◌, ◌≤◌, ◌<◌, String, false, Option, none, some, List, [], ◌∷◌, ltb, length, take,
  drop, length-drop, length-take, ℤ, ◌≡◌, refl, sym, ap, ◌∙◌, arith, Bool-cases, Option-cases, inl,
  inr,
}
use think_pixel_llmgw.Redis.{Link, replied, refused, reply_lost, RedisLists, take_range}
use think_pixel_llmgw.Logging.{Buffer, all_of, count_of, pop_script, dequeue}
use think_pixel_llmgw.Logging.Sink.{S3SinkConfig, Round, Stores, write_dequeued, flush_all}

module _ {ℓ} {A B : Type ℓ} (f : A → Option B) where
  all_of-cons :
      (x : A) (y : B) (xs : List A) (ys : List B)
      → f x ≡ some y
      → all_of f xs ≡ some ys
      → all_of f (x ∷ xs) ≡ some (y ∷ ys)
  unfolding all_of
  all_of-cons x y xs ys e es = ground (arith, e, es)

  all_of-head :
      (x : A) (xs : List A) (zs : List B)
      → all_of f (x ∷ xs) ≡ some zs
      → (y : B) × (ys : List B) × (f x ≡ some y) × (all_of f xs ≡ some ys) × (zs ≡ y ∷ ys)
  unfolding all_of
  all_of-head x xs zs e = elim (Option-cases (f x)) [
    | inl e₁ ↦ ground (arith, e, e₁)
    | inr (y, e₁) ↦ elim (Option-cases (all_of f xs)) [
      | inl e₂ ↦ ground (arith, e, e₁, e₂)
      | inr (ys, e₂) ↦ (y, ys, e₁, e₂, ground (arith, e, e₁, e₂))
    ]
  ]

  pub all_of-take :
      (n : ℕ) (xs : List A) (zs : List B)
      → all_of f xs ≡ some zs
      → all_of f (take n xs) ≡ some (take n zs)
  unfolding all_of
  all_of-take zero xs zs e = refl
  all_of-take (suc n) [] zs e = ground (arith, e)
  all_of-take (suc n) (x ∷ xs) zs e =
      let (y, ys, e₁, e₂, e₃) = all_of-head x xs zs e in
      rw e₃ (all_of-cons x y (take n xs) (take n ys) e₁ (all_of-take n xs ys e₂))

  pub all_of-drop :
      (n : ℕ) (xs : List A) (zs : List B)
      → all_of f xs ≡ some zs
      → all_of f (drop n xs) ≡ some (drop n zs)
  unfolding all_of
  all_of-drop zero xs zs e = e
  all_of-drop (suc n) [] zs e = ground (arith, e)
  all_of-drop (suc n) (x ∷ xs) zs e =
      let (y, ys, e₁, e₂, e₃) = all_of-head x xs zs e in rw e₃ (all_of-drop n xs ys e₂)

  pub all_of-length : (xs : List A) (zs : List B) → all_of f xs ≡ some zs → length xs ≡ length zs
  unfolding all_of
  all_of-length [] zs e = ground (arith, e)
  all_of-length (x ∷ xs) zs e =
      let (y, ys, e₁, e₂, e₃) = all_of-head x xs zs e in
      ap suc (all_of-length xs ys e₂) ∙ ap length (sym e₃)

abbrev delivered {ℓ} : {A : Type ℓ} → Option (List A) → ℕ
delivered none = 0
delivered (some xs) = length xs

delivered-all_of {ℓ} :
    {A B : Type ℓ} (f : A → Option B) (xs : List A) → delivered (all_of f xs) ≤ length xs
delivered-all_of f xs = elim (Option-cases (all_of f xs)) [
  | inl e ↦ rw e (omega arith)
  | inr (ys, e) ↦ rw e (omega (arith, all_of-length f xs ys e))
]

module _ {ℓ} {R T : Type ℓ} (ls : RedisLists R T) where
  drop-none : (ys xs : List T) → ltb 0 (length ys) ≡ false → drop (length ys) xs ≡ xs
  drop-none [] xs e = refl
  drop-none (y ∷ ys) xs e = ground (arith, e)

  pub pop-items :
      (r : R) (key : String) (count : ℕ)
      → ls.items (pop_script ls r key count).0 key
        ≡ drop (length (pop_script ls r key count).1) (ls.items r key)
  unfolding pop_script
  pop-items r key count = elim (Bool-cases (ltb 0 (length (ls.lrange r key count)))) [
    | inl e ↦ rw e (ls.items-ltrim r key (length (ls.lrange r key count)))
    | inr e ↦ rw (e, drop-none (ls.lrange r key count) (ls.items r key) e) refl
  ]

  take_range-length : (n : ℕ) (xs : List T) → length (take_range n xs) ≤ length xs
  take_range-length zero xs = omega arith
  take_range-length (suc n) xs = omega (arith, length-take (suc n) xs)

  pop-length :
      (r : R) (key : String) (count : ℕ)
      → length (pop_script ls r key count).1 + length (ls.items (pop_script ls r key count).0 key)
        ≡ length (ls.items r key)
  unfolding pop_script
  pop-length r key count =
      let popped = (pop_script ls r key count).1 in
      omega (
        arith,
        ap length (pop-items r key count),
        length-drop (length popped) (ls.items r key),
        ap length (ls.lrange_lem r key count),
        take_range-length count (ls.items r key),
      )

module _ {R T A B : Type 0} (ls : RedisLists R T) (marshal : A → Option T)
    (unmarshal : T → Option A) (encode : A → Option String) (gzip : String → B)
    (config : S3SinkConfig) (rb : Buffer) where
  dequeue-length :
      (r : R) (link : Link) (count : ℤ)
      → delivered (dequeue ls marshal unmarshal rb r link count).1
          + length (ls.items (dequeue ls marshal unmarshal rb r link count).0 rb.queue_key)
        ≤ length (ls.items r rb.queue_key)
  unfolding dequeue
  dequeue-length r refused count = omega arith
  dequeue-length r reply_lost count =
      omega (arith, pop-length ls r rb.queue_key (count_of rb count))
  dequeue-length r replied count = omega (
    arith,
    pop-length ls r rb.queue_key (count_of rb count),
    delivered-all_of unmarshal (pop_script ls r rb.queue_key (count_of rb count)).1,
  )

  more-delivered :
      (s : Stores R B) (round : Round) (d : R × Option (List A))
      → (write_dequeued ls marshal unmarshal encode gzip config s round d).1 ≡ ltb 0 (delivered d.1)
  more-delivered s round (r, none) = refl
  more-delivered s round (r, some []) = refl
  more-delivered s round (r, some (a ∷ rest)) = ground arith

  redis-write_dequeued :
      (s : Stores R B) (round : Round) (d : R × Option (List A))
      → (write_dequeued ls marshal unmarshal encode gzip config s round d).0.redis ≡ d.0
  redis-write_dequeued s round (r, none) = refl
  redis-write_dequeued s round (r, some []) = refl
  redis-write_dequeued s round (r, some (a ∷ rest)) = refl

  -- The loop of flushAll ends: with as much fuel as there are records in the buffer and one more,
  -- it returns, whatever becomes of the commands and the uploads and whatever the records hold.
  pub flush_all-ends :
      (fuel : ℕ) (s : Stores R B) (rounds : ℕ → Round)
      → length (ls.items s.redis rb.queue_key) < fuel
      → (s' : Stores R B) × (flush_all ls marshal unmarshal encode gzip fuel config rb s rounds
          ≡ some s')
  unfolding flush_all
  flush_all-ends zero s rounds enough = absurd (omega (arith, enough))
  flush_all-ends (suc fuel) s rounds enough =
      let d = dequeue ls marshal unmarshal rb s.redis (rounds 0).dequeued config.flush_size in
      let next = (write_dequeued ls marshal unmarshal encode gzip config s (rounds 0) d).0 in
      elim (Bool-cases (ltb 0 (delivered d.1))) [
        | inl more ↦
            rw (more-delivered s (rounds 0) d, more)
              (flush_all-ends fuel next (λ n. rounds (suc n))
                (ground (
                  arith,
                  more,
                  enough,
                  dequeue-length s.redis (rounds 0).dequeued config.flush_size,
                  ap (λ r. length (ls.items r rb.queue_key)) (redis-write_dequeued s (rounds 0) d),
                )))
        | inr over ↦ rw (more-delivered s (rounds 0) d, over) (next, refl)
      ]
