-- ===== src/RateLimit/Limits.antt =====
-- Where the two limiters of a key differ.
use think_pixel_llmgw.Prelude.{
  ℕ, ◌<◌, String, true, false, some, ◌≡◌, ap, ◌∙◌, pos, length, arith, lt→ltb,
}
use think_pixel_llmgw.Redis.{replied}
use think_pixel_llmgw.RateLimit.{
  above, RedisSortedSets, unix_milli, window_start, limit_key, allow_with_details, allow_n,
  check_limit,
}

module _ {ℓ} {R : Type ℓ} (zs : RedisSortedSets R) (api_key_id : String) where
  -- How many requests the set holds from the minute before `now`.
  abbrev pub in_window : R → ℕ → ℕ
  in_window r now =
      length
        (above (unix_milli (window_start now)) (zs.members (zs.at r now) (limit_key api_key_id)))

  zcard-cleaned :
      (r : R) (now : ℕ)
      → zs.zcard
          (zs.zrem_range (zs.at r now) (limit_key api_key_id) (unix_milli (window_start now)))
          (limit_key api_key_id)
        ≡ in_window r now
  zcard-cleaned r now =
      zs.zcard_lem
        (zs.zrem_range (zs.at r now) (limit_key api_key_id) (unix_milli (window_start now)))
        (limit_key api_key_id)
      ∙ ap length (
          zs.members-zrem_range (zs.at r now) (limit_key api_key_id)
            (unix_milli (window_start now)))

  -- Where the limit is positive, the replies of Redis come, and the minute already holds exactly
  -- `limit` requests, AllowWithDetails denies one more and CheckLimit allows it.
  pub check_limit_admits_one_more :
      (r : R) (now limit : ℕ)
      → 0 < limit
      → in_window r now ≡ limit
      → ((allow_with_details zs r
            (replied, replied, replied, replied)
            api_key_id
            now
            (pos limit)).1.allowed
          ≡ false)
        × ((check_limit zs r replied api_key_id now (pos limit)).1 ≡ some true)
  unfolding allow_with_details check_limit allow_n
  check_limit_admits_one_more r now limit positive full =
      rw (lt→ltb 0 limit positive)
        (rw (zcard-cleaned r now ∙ full) (ground arith, ap some (ground arith)))
