-- ===== src/RateLimit.antt =====
-- The sliding window limiter, llm_gateway/internal/ratelimit/ratelimiter.go, over the sorted sets
-- of a Redis server. `now` is `time.Now()` in nanoseconds, and is past the first minute of 1970.
-- A Go int is an integer that does not overflow here. The commands of a call are run at its `now`,
-- one call after another: that the limiter holds no lock between its commands is not modelled.
pub mod Scores
pub mod Cover
pub mod Window
pub mod Limits
mod Tests
use think_pixel_llmgw.Prelude.{
  ℕ, zero, suc, ◌+◌, ◌-◌, ◌*◌, ◌/◌, String, Bool, true, false, Option, none, some, List, [], ◌∷◌,
  ◌≡◌, refl, ◌⊎◌, ℤ, pos, negsuc, is_pos, to_ℕ, ltb, leb, if◌then◌else◌, length, ◌⊕◌, decimal,
  str_eq,
}
use think_pixel_llmgw.Redis.{Link, replied, refused, reply_lost}

-- The members of a sorted set, each with its score.
abbrev pub Members : Type 0
Members = List (ℕ × String)

abbrev pub has_member : String → Members → Bool
has_member m [] = false
has_member m (x ∷ xs) = if str_eq m x.1 then true else has_member m xs

-- The members with a score above `high`.
abbrev pub above : ℕ → Members → Members
above high [] = []
above high (x ∷ xs) = let rest = above high xs in if ltb high x.0 then x ∷ rest else rest

-- Whether the time at which a key expires has come; a key may have none.
abbrev pub has_passed : ℕ → Option ℕ → Bool
has_passed now none = false
has_passed now (some deadline) = leb deadline now

-- ZREMRANGEBYSCORE from 0, ZCARD, ZADD, EXPIRE (to a time) and DEL, which are what the limiter asks
-- of a server; `members` is the set under a key, in the order in which they were added, `deadline`
-- the time at which the key expires, and `at` the server at a time, without the keys that have
-- expired. A command leaves a key its deadline, or none where the key came or went; EXPIRE does
-- nothing to a key that is not there.
pub record RedisSortedSets {ℓ} (R : Type ℓ) : Type ℓ where
  pub members : R → String → Members
  pub zrem_range : R → String → ℕ → R
  pub zcard : R → String → ℕ
  pub zadd : R → String → ℕ → String → R
  pub expire : R → String → ℕ → R
  pub del : R → String → R
  pub deadline : R → String → Option ℕ
  pub at : R → ℕ → R
  pub members-at :
      (r : R) (now : ℕ) (k : String)
      → members (at r now) k ≡ (if has_passed now (deadline r k) then [] else members r k)
  pub members-expire : (r : R) (k : String) (d : ℕ) → members (expire r k d) k ≡ members r k
  pub deadline-at :
      (r : R) (now : ℕ) (k : String)
      → (deadline (at r now) k ≡ deadline r k) ⊎ (deadline (at r now) k ≡ none)
  pub deadline-zrem_range :
      (r : R) (k : String) (high : ℕ)
      → (deadline (zrem_range r k high) k ≡ deadline r k)
        ⊎ (deadline (zrem_range r k high) k ≡ none)
  pub deadline-zadd :
      (r : R) (k : String) (s : ℕ) (m : String)
      → (deadline (zadd r k s m) k ≡ deadline r k) ⊎ (deadline (zadd r k s m) k ≡ none)
  pub deadline-expire :
      (r : R) (k : String) (d : ℕ)
      → (deadline (expire r k d) k ≡ some d) ⊎ (deadline (expire r k d) k ≡ none)
  pub zcard_lem : (r : R) (k : String) → zcard r k ≡ length (members r k)
  pub members-zrem_range :
      (r : R) (k : String) (high : ℕ) → members (zrem_range r k high) k ≡ above high (members r k)
  pub members-zadd :
      (r : R) (k : String) (s : ℕ) (m : String)
      → has_member m (members r k) ≡ false
      → members (zadd r k s m) k ≡ (s, m) ∷ members r k
  pub members-del : (r : R) (k : String) → members (del r k) k ≡ []

abbrev pub unix_milli : ℕ → ℕ
unix_milli now = now / 1000000

abbrev pub minute : ℕ
minute = 60000000000

abbrev pub window_start : ℕ → ℕ
window_start now = now - minute

unfoldable pub limit_key : String → String
limit_key api_key_id = "ratelimit:" ⊕ api_key_id

unfoldable pub member_name : ℕ → ℕ → String
unfolding decimal
member_name a b = decimal a ⊕ ":" ⊕ decimal b

-- What AllowWithDetails returns; `error` stands for its err, and `reset_at` is `none` for the
-- zero time.
pub record Details : Type 0 where
  pub allowed : Bool
  pub remaining : ℤ
  pub reset_at : Option ℕ
  pub error : Bool

abbrev pub failed : Details
failed = record { allowed = false; remaining = pos 0; reset_at = none; error = true }

abbrev pub answer : Bool → ℕ → ℕ → Details
answer allowed remaining now = record {
  allowed = allowed;
  remaining = pos remaining;
  reset_at = some (window_start now + minute);
  error = false;
}

module _ {ℓ} {R : Type ℓ} (zs : RedisSortedSets R) where
  -- The `count - i` ZADDs of AllowN that are left, from the one of `i` on.
  unfoldable pub add_requests : ℕ → R → String → ℕ → ℕ → R
  add_requests zero r key now i = r
  add_requests (suc left) r key now i =
      let timestamp = unix_milli (now + i * 1000) in
      add_requests left (zs.zadd r key timestamp (member_name timestamp i)) key now (suc i)

  -- `none` is an error. The pipeline is one round trip: it fares as a whole.
  unfoldable pub allow_n : R → Link → String → ℕ → ℤ → ℕ → R × Option Bool
  unfolding add_requests limit_key member_name
  allow_n r link api_key_id now limit count =
      if is_pos limit
      then (let key = limit_key api_key_id in
          let cleaned = zs.zrem_range (zs.at r now) key (unix_milli (window_start now)) in
          let added = zs.expire (add_requests count cleaned key now 0) key (now + 2 * minute) in
          elim link [
            | replied ↦ (added, some (leb (zs.zcard cleaned key) (to_ℕ limit)))
            | refused ↦ (r, none)
            | reply_lost ↦ (added, none)
          ])
      else (r, some true)

  unfoldable pub check_limit : R → Link → String → ℕ → ℤ → R × Option Bool
  unfolding allow_n
  check_limit r link api_key_id now limit = allow_n r link api_key_id now limit 1

  unfoldable pub get_current_usage : R → Link → Link → String → ℕ → R × Option ℕ
  get_current_usage r refused count_link api_key_id now = (r, none)
  get_current_usage r reply_lost count_link api_key_id now =
      (zs.zrem_range (zs.at r now) (limit_key api_key_id) (unix_milli (window_start now)), none)
  get_current_usage r replied replied api_key_id now =
      let cleaned =
        zs.zrem_range (zs.at r now) (limit_key api_key_id) (unix_milli (window_start now)) in
      (cleaned, some (zs.zcard cleaned (limit_key api_key_id)))
  get_current_usage r replied _ api_key_id now =
      (zs.zrem_range (zs.at r now) (limit_key api_key_id) (unix_milli (window_start now)), none)

  -- The part of AllowWithDetails behind the comparison of the count with the limit.
  -- The error of EXPIRE is ignored.
  abbrev pub expire_in_2_minutes : R → Link → String → ℕ → R
  expire_in_2_minutes r refused key now = r
  expire_in_2_minutes r replied key now = zs.expire r key (now + 2 * minute)
  expire_in_2_minutes r reply_lost key now = zs.expire r key (now + 2 * minute)

  unfoldable pub record_request : R → Link × Link → String → ℕ → ℕ → ℕ → R × Details
  unfolding member_name
  record_request r links key now limit count =
      let timestamp = unix_milli now in
      let added = zs.zadd r key timestamp (member_name timestamp now) in
      elim links.0 [
        | replied ↦ (expire_in_2_minutes added links.1 key now, answer true (limit - count - 1) now)
        | refused ↦ (r, failed)
        | reply_lost ↦ (added, failed)
      ]

  -- The links are those of ZREMRANGEBYSCORE, ZCARD, ZADD and EXPIRE.
  unfoldable pub allow_with_details : R → Link × Link × Link × Link → String → ℕ → ℤ → R × Details
  unfolding record_request limit_key
  allow_with_details r (cleaning, counting, adding, expiring) api_key_id now limit =
      if is_pos limit
      then (let key = limit_key api_key_id in
          let cleaned = zs.zrem_range (zs.at r now) key (unix_milli (window_start now)) in
          let count = zs.zcard cleaned key in
          elim cleaning [
            | refused ↦ (r, failed)
            | reply_lost ↦ (cleaned, failed)
            | replied ↦ elim counting [
              | replied ↦
                  if ltb count (to_ℕ limit)
                  then record_request cleaned (adding, expiring) key now (to_ℕ limit) count
                  else (cleaned, answer false 0 now)
              | _ ↦ (cleaned, failed)
            ]
          ])
      else (r, record { allowed = true; remaining = negsuc 0; reset_at = none; error = false })

  unfoldable pub reset : R → Link → String → R
  unfolding limit_key
  reset r refused api_key_id = r
  reset r _ api_key_id = zs.del r (limit_key api_key_id)

-- NoopLimiter, and RateLimiter.Allow, which leaves the decision to AllowWithDetails.
unfoldable pub allow : String → Bool
allow api_key_id = true
