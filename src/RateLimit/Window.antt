-- ===== src/RateLimit/Window.antt =====
-- How many requests the limiter lets through in a minute.
use think_pixel_llmgw.Prelude.{
  ℕ, ◌-◌, ◌≤◌, ◌<◌, inl, inr, String, true, false, List, [], ◌∷◌, ◌≡◌, pos, refl, length, arith,
  Bool-cases, subst,
}
use think_pixel_llmgw.Redis.{Link}
use think_pixel_llmgw.RateLimit.{
  has_member, RedisSortedSets, unix_milli, limit_key, member_name, Details, allow_with_details,
}
use think_pixel_llmgw.RateLimit.Scores.{scores_above, cutoff, cutoff-unix_milli, cutoff-monotone}
use think_pixel_llmgw.RateLimit.Cover.{
  Covers, Lasts, with_answer, IsRun, none_above, allow_with_details-Kept,
}

-- The requests of one key: when each comes, and how its Redis calls fare.
pub record Request : Type 0 where
  pub now : ℕ
  pub links : Link × Link × Link × Link

module _ {ℓ} {R : Type ℓ} (zs : RedisSortedSets R) (api_key_id : String) where
  -- The requests of a list, served one after another; the times, in milliseconds, of those let
  -- through so far are added to, newest first.
  unfoldable pub serve_all : ℕ → R → List ℕ → List Request → List ℕ
  serve_all limit r served [] = served
  serve_all limit r served (q ∷ qs) =
      let (r', d) = allow_with_details zs r q.links api_key_id q.now (pos limit) in
      serve_all limit r' (with_answer zs api_key_id (unix_milli q.now) served d) qs

  -- Each request adds a member that the set does not hold yet.
  abbrev pub AllFresh : ℕ → R → List Request → Type 0
  AllFresh limit r [] = Unit
  AllFresh limit r (q ∷ qs) =
      (has_member (member_name (unix_milli q.now) q.now) (zs.members r (limit_key api_key_id))
        ≡ false)
      × AllFresh limit (allow_with_details zs r q.links api_key_id q.now (pos limit)).0 qs

-- The requests come in the order of their times, from `t` on.
abbrev pub InOrder : ℕ → List Request → Type 0
InOrder t [] = Unit
InOrder t (q ∷ qs) = (t ≤ q.now) × InOrder q.now qs

-- No EXPIRE is refused.
abbrev pub AllExpire : List Request → Type 0
AllExpire [] = Unit
AllExpire (q ∷ qs) = IsRun q.links.3 × AllExpire qs

-- In the minute that ends at a request that was let through, at most `limit` were let through.
abbrev pub WithinLimit : ℕ → List ℕ → Type 0
WithinLimit limit [] = Unit
WithinLimit limit (t ∷ ts) =
    (length (scores_above (t - 60000) (t ∷ ts)) ≤ limit) × WithinLimit limit ts

module _ {ℓ} {R : Type ℓ} (zs : RedisSortedSets R) (api_key_id : String) where
  answer_within :
      (limit now : ℕ) (served : List ℕ) (d : Details)
      → (d.allowed ≡ true → length (scores_above (cutoff now) (unix_milli now ∷ served)) ≤ limit)
      → WithinLimit limit served
      → WithinLimit limit (with_answer zs api_key_id (unix_milli now) served d)
  answer_within limit now served d few within = elim (Bool-cases d.allowed) [
    | inl through ↦ rw through (
      subst (λ c. length (scores_above c (unix_milli now ∷ served)) ≤ limit) (cutoff-unix_milli now)
          (few through),
      within,
    )
    | inr denied ↦ rw denied within
  ]

  -- After an answer no request that was let through comes after it.
  before-answer :
      (t now : ℕ) (served : List ℕ) (d : Details)
      → t ≤ now
      → scores_above (unix_milli t) served ≡ []
      → scores_above (unix_milli now) (with_answer zs api_key_id (unix_milli now) served d) ≡ []
  before-answer t now served d le before =
      let still = none_above (unix_milli t) (unix_milli now) served (omega arith) before in
      elim (Bool-cases d.allowed) [
        | inl through ↦ rw through (ground (arith, still))
        | inr denied ↦ rw denied still
      ]

  serve_all_from :
      (limit t : ℕ) (r : R) (served : List ℕ) (qs : List Request)
      → 0 < limit
      → InOrder t qs
      → AllExpire qs
      → AllFresh zs api_key_id limit r qs
      → scores_above (unix_milli t) served ≡ []
      → Covers zs api_key_id (cutoff t) served r
      → Lasts zs api_key_id served r
      → WithinLimit limit served
      → WithinLimit limit (serve_all zs api_key_id limit r served qs)
  unfolding serve_all
  serve_all_from limit t r served [] positive order expire fresh before covers lasts within = within
  serve_all_from limit t r served (q ∷ qs) positive (le, order) (run, expire) (new, fresh) before
        covers lasts within =
      let (r', d) = allow_with_details zs r q.links api_key_id q.now (pos limit) in
      let now_before = none_above (unix_milli t) (unix_milli q.now) served (omega arith) before in
      let (next, lasting, few) =
        allow_with_details-Kept zs api_key_id (cutoff t) r q.links q.now limit served run positive
          (cutoff-monotone t q.now le) new now_before covers lasts in
      serve_all_from limit q.now r' (with_answer zs api_key_id (unix_milli q.now) served d) qs
        positive order expire fresh (before-answer t q.now served d le before) next lasting
        (answer_within limit q.now served d few within)

  -- In any sequence of requests of a key that are served one after another in the order of their
  -- times, AllowWithDetails with a positive limit lets at most `limit` requests through in the
  -- minute that ends at any request that it lets through, whatever becomes of ZREMRANGEBYSCORE,
  -- ZCARD and ZADD, provided that no EXPIRE is refused and that the member it adds for a request
  -- is new in the key's set.
  pub serve_all-WithinLimit :
      (limit t : ℕ) (r : R) (qs : List Request)
      → 0 < limit
      → InOrder t qs
      → AllExpire qs
      → AllFresh zs api_key_id limit r qs
      → WithinLimit limit (serve_all zs api_key_id limit r [] qs)
  serve_all-WithinLimit limit t r qs positive order expire fresh =
      serve_all_from limit t r [] qs positive order expire fresh refl (λ x le. omega arith)
        (λ x passed. refl) tt
