-- ===== src/RateLimit/Cover.antt =====
-- What AllowWithDetails does to the set of a key: the set covers the requests that were let through
-- in the last minute, and the key does not expire before they are out of it.
use think_pixel_llmgw.Prelude.{
  ℕ, ◌+◌, ◌*◌, ◌-◌, ◌≤◌, ◌<◌, inl, inr, String, true, false, List, [], ◌∷◌, ◌≡◌, ap, ◌∙◌, pos, ltb,
  leb, none, ◌⊎◌, sym, if-true, if-false, if◌then◌else◌, length, arith, Bool-cases, lt→ltb, ltb→lt,
}
use think_pixel_llmgw.Redis.{Link, replied, refused, reply_lost}
use think_pixel_llmgw.RateLimit.{
  has_member, has_passed, minute, answer, RedisSortedSets, unix_milli, limit_key, member_name,
  Details, record_request, allow_with_details,
}
use think_pixel_llmgw.RateLimit.Scores.{
  scores_above, length-scores_above, scores, scores-above, above-twice, length-scores,
  has_member-above, impossible, cutoff,
}

-- EXPIRE is not refused.
abbrev pub IsRun : Link → Type 0
IsRun refused = ⊥
IsRun replied = Unit
IsRun reply_lost = Unit

-- Two minutes after a request the window no longer reaches it.
long_after : (now x : ℕ) → now + 2 * minute ≤ x → unix_milli now ≤ cutoff x
long_after now x h = omega arith

pub none_above : (a b : ℕ) (xs : List ℕ) → a ≤ b → scores_above a xs ≡ [] → scores_above b xs ≡ []
none_above a b xs le none_ = sym (above-twice a b xs le) ∙ ap (scores_above b) none_

module _ {ℓ} {R : Type ℓ} (zs : RedisSortedSets R) (api_key_id : String) where
  abbrev pub stored : R → List ℕ
  stored r = scores (zs.members r (limit_key api_key_id))

  -- From `c` on, the set holds at least as many requests as were let through.
  abbrev pub Covers : ℕ → List ℕ → R → Type 0
  Covers c served r =
      (x : ℕ) → c ≤ x → length (scores_above x served) ≤ length (scores_above x (stored r))

  Covers-later : (c d : ℕ) (served : List ℕ) (r : R) → c ≤ d → Covers c served r → Covers d served r
  Covers-later c d served r h covers x le = covers x (omega arith)

  stored-zrem_range :
      (r : R) (c : ℕ)
      → stored (zs.zrem_range r (limit_key api_key_id) c) ≡ scores_above c (stored r)
  stored-zrem_range r c =
      ap scores (zs.members-zrem_range r (limit_key api_key_id) c)
      ∙ scores-above c (zs.members r (limit_key api_key_id))

  Covers-zrem_range :
      (c d : ℕ) (served : List ℕ) (r : R)
      → c ≤ d
      → Covers c served r
      → Covers d served (zs.zrem_range r (limit_key api_key_id) d)
  Covers-zrem_range c d served r h covers x le =
      rw (stored-zrem_range r d) (rw (above-twice d x (stored r) le) (covers x (omega arith)))

  Covers-zadd :
      (c t : ℕ) (m : String) (served : List ℕ) (r : R)
      → has_member m (zs.members r (limit_key api_key_id)) ≡ false
      → Covers c served r
      → Covers c served (zs.zadd r (limit_key api_key_id) t m)
        × Covers c (t ∷ served) (zs.zadd r (limit_key api_key_id) t m)
  Covers-zadd c t m served r fresh covers =
      let same = ap scores (zs.members-zadd r (limit_key api_key_id) t m fresh) in
      (λ x le. rw same (ground (arith, covers x le)), λ x le. rw same (ground (arith, covers x le)))

  -- When the key expires, the minute holds none of the requests that were let through.
  abbrev pub Lasts : List ℕ → R → Type 0
  Lasts served r =
      (x : ℕ)
      → has_passed x (zs.deadline r (limit_key api_key_id)) ≡ true
      → scores_above (cutoff x) served ≡ []

  Lasts-kept :
      (served : List ℕ) (r r' : R)
      → (zs.deadline r' (limit_key api_key_id) ≡ zs.deadline r (limit_key api_key_id))
        ⊎ (zs.deadline r' (limit_key api_key_id) ≡ none)
      → Lasts served r
      → Lasts served r'
  Lasts-kept served r r' (inl same) lasts x passed = lasts x (ap (has_passed x) (sym same) ∙ passed)
  Lasts-kept served r r' (inr gone) lasts x passed =
      impossible (ap (has_passed x) (sym gone) ∙ passed)

  Lasts-expire :
      (served : List ℕ) (r : R) (now : ℕ)
      → scores_above (unix_milli now) served ≡ []
      → Lasts (unix_milli now ∷ served) (zs.expire r (limit_key api_key_id) (now + 2 * minute))
  Lasts-expire served r now before x passed =
      elim (zs.deadline-expire r (limit_key api_key_id) (now + 2 * minute)) [
        | inr gone ↦ impossible (ap (has_passed x) (sym gone) ∙ passed)
        | inl at ↦
            let late : leb (now + 2 * minute) x ≡ true = ap (has_passed x) (sym at) ∙ passed in
            let far : unix_milli now ≤ cutoff x = long_after now x (ground (arith, late)) in
            ground (arith, far, none_above (unix_milli now) (cutoff x) served far before)
      ]

  Covers-at :
      (c : ℕ) (served : List ℕ) (r : R) (now : ℕ)
      → c ≤ cutoff now
      → Covers c served r
      → Lasts served r
      → Covers (cutoff now) served (zs.at r now)
  Covers-at c served r now le covers lasts x from =
      elim (Bool-cases (has_passed now (zs.deadline r (limit_key api_key_id)))) [
        | inl passed ↦ rw (none_above (cutoff now) x served from (lasts now passed)) (omega arith)
        | inr not_yet ↦
            let same : stored (zs.at r now) ≡ stored r =
              ap scores (zs.members-at r now (limit_key api_key_id) ∙ if-false _ _ not_yet) in
            rw same (covers x (omega arith))
      ]

  -- The requests let through so far, newest first, after the answer `d` to one at `t`.
  abbrev pub with_answer : ℕ → List ℕ → Details → List ℕ
  with_answer t served d = if d.allowed then t ∷ served else served

  -- What one answer preserves: the cover, the life of the key, and the limit on the window that
  -- ends there.
  abbrev pub Kept : ℕ → ℕ → List ℕ → R × Details → Type 0
  Kept limit now served (r, d) =
      Covers (cutoff now) (with_answer (unix_milli now) served d) r
      × Lasts (with_answer (unix_milli now) served d) r
      × (d.allowed ≡ true → length (scores_above (cutoff now) (unix_milli now ∷ served)) ≤ limit)

  Covers-expire :
      (c d : ℕ) (served : List ℕ) (r : R)
      → Covers c served r
      → Covers c served (zs.expire r (limit_key api_key_id) d)
  Covers-expire c d served r covers x le =
      rw (ap scores (zs.members-expire r (limit_key api_key_id) d)) (covers x le)

  -- A request that is let through, whose EXPIRE is run.
  recorded-Kept :
      (r : R) (now limit count : ℕ) (served : List ℕ)
      → count < limit
      → length (scores_above (cutoff now) served) ≤ count
      → has_member (member_name (unix_milli now) now) (zs.members r (limit_key api_key_id)) ≡ false
      → scores_above (unix_milli now) served ≡ []
      → Covers (cutoff now) served r
      → Kept limit now served (
        zs.expire
            (zs.zadd r (limit_key api_key_id) (unix_milli now) (member_name (unix_milli now) now))
            (limit_key api_key_id)
            (now + 2 * minute),
        answer true (limit - count - 1) now,
      )
  recorded-Kept r now limit count served lt le fresh before covers = (
    Covers-expire (cutoff now) (now + 2 * minute) (unix_milli now ∷ served) _
        (Covers-zadd (cutoff now) (unix_milli now) (member_name (unix_milli now) now) served r fresh
          covers).1,
    Lasts-expire served _ now before,
    λ _. ground arith,
  )

  record_request-Kept :
      (r : R) (adding expiring : Link) (now limit count : ℕ) (served : List ℕ)
      → IsRun expiring
      → count < limit
      → length (scores_above (cutoff now) served) ≤ count
      → has_member (member_name (unix_milli now) now) (zs.members r (limit_key api_key_id)) ≡ false
      → scores_above (unix_milli now) served ≡ []
      → Covers (cutoff now) served r
      → Lasts served r
      → Kept limit now served
          (record_request zs r (adding, expiring) (limit_key api_key_id) now limit count)
  unfolding record_request
  record_request-Kept r replied replied now limit count served run lt le fresh before covers lasts =
      recorded-Kept r now limit count served lt le fresh before covers
  record_request-Kept r replied reply_lost now limit count served run lt le fresh before covers
        lasts =
      recorded-Kept r now limit count served lt le fresh before covers
  record_request-Kept r replied refused now limit count served run lt le fresh before covers lasts =
      absurd run
  record_request-Kept r refused _ now limit count served run lt le fresh before covers lasts =
      (covers, lasts, λ h. impossible h)
  record_request-Kept r reply_lost _ now limit count served run lt le fresh before covers lasts = (
    (Covers-zadd (cutoff now) (unix_milli now) (member_name (unix_milli now) now) served r fresh
        covers).0,
    Lasts-kept served r _ (zs.deadline-zadd r (limit_key api_key_id) _ _) lasts,
    λ h. impossible h,
  )

  fresh-zrem_range :
      (r : R) (m : String) (c : ℕ)
      → has_member m (zs.members r (limit_key api_key_id)) ≡ false
      → has_member m (zs.members (zs.zrem_range r (limit_key api_key_id) c) (limit_key api_key_id))
        ≡ false
  fresh-zrem_range r m c fresh =
      rw (zs.members-zrem_range r (limit_key api_key_id) c)
        (has_member-above m c (zs.members r (limit_key api_key_id)) fresh)

  counted-cleaned :
      (r : R) (c : ℕ) (served : List ℕ)
      → Covers c served (zs.zrem_range r (limit_key api_key_id) c)
      → length (scores_above c served)
        ≤ zs.zcard (zs.zrem_range r (limit_key api_key_id) c) (limit_key api_key_id)
  counted-cleaned r c served covers =
      let at = covers c (omega arith) in
      let some_above = length-scores_above c (stored (zs.zrem_range r (limit_key api_key_id) c)) in
      let count = zs.zcard_lem (zs.zrem_range r (limit_key api_key_id) c) (limit_key api_key_id) in
      let n =
        length-scores
          (zs.members (zs.zrem_range r (limit_key api_key_id) c) (limit_key api_key_id)) in
      omega arith

  fresh-at :
      (r : R) (m : String) (now : ℕ)
      → has_member m (zs.members r (limit_key api_key_id)) ≡ false
      → has_member m (zs.members (zs.at r now) (limit_key api_key_id)) ≡ false
  fresh-at r m now fresh =
      elim (Bool-cases (has_passed now (zs.deadline r (limit_key api_key_id)))) [
        | inl passed ↦
            ap (has_member m) (zs.members-at r now (limit_key api_key_id) ∙ if-true _ _ passed)
        | inr not_yet ↦
            ap (has_member m) (zs.members-at r now (limit_key api_key_id) ∙ if-false _ _ not_yet)
            ∙ fresh
      ]

  -- The server behind the cleaning of the set at `now`.
  abbrev cleaned_at : R → ℕ → R
  cleaned_at r now = zs.zrem_range (zs.at r now) (limit_key api_key_id) (cutoff now)

  cleaned-Kept :
      (c : ℕ) (r : R) (now : ℕ) (served : List ℕ)
      → c ≤ cutoff now
      → Covers c served r
      → Lasts served r
      → Covers (cutoff now) served (cleaned_at r now) × Lasts served (cleaned_at r now)
  cleaned-Kept c r now served le covers lasts = (
    Covers-zrem_range (cutoff now) (cutoff now) served (zs.at r now) (omega arith)
        (Covers-at c served r now le covers lasts),
    Lasts-kept served (zs.at r now) _
        (zs.deadline-zrem_range (zs.at r now) (limit_key api_key_id) (cutoff now))
        (Lasts-kept served r _ (zs.deadline-at r now (limit_key api_key_id)) lasts),
  )

  pub allow_with_details-Kept :
      (c : ℕ) (r : R) (links : Link × Link × Link × Link) (now limit : ℕ) (served : List ℕ)
      → IsRun links.3
      → 0 < limit
      → c ≤ cutoff now
      → has_member (member_name (unix_milli now) now) (zs.members r (limit_key api_key_id)) ≡ false
      → scores_above (unix_milli now) served ≡ []
      → Covers c served r
      → Lasts served r
      → Kept limit now served (allow_with_details zs r links api_key_id now (pos limit))
  unfolding allow_with_details
  allow_with_details-Kept c r (refused, _, _, _) now limit served run positive le fresh before
        covers lasts =
      rw (lt→ltb 0 limit positive)
        (Covers-later c (cutoff now) served r le covers, lasts, λ h. impossible h)
  allow_with_details-Kept c r (reply_lost, _, _, _) now limit served run positive le fresh before
        covers lasts =
      let (covered, lasting) = cleaned-Kept c r now served le covers lasts in
      rw (lt→ltb 0 limit positive) (covered, lasting, λ h. impossible h)
  allow_with_details-Kept c r (replied, refused, _, _) now limit served run positive le fresh before
        covers lasts =
      let (covered, lasting) = cleaned-Kept c r now served le covers lasts in
      rw (lt→ltb 0 limit positive) (covered, lasting, λ h. impossible h)
  allow_with_details-Kept c r (replied, reply_lost, _, _) now limit served run positive le fresh
        before covers lasts =
      let (covered, lasting) = cleaned-Kept c r now served le covers lasts in
      rw (lt→ltb 0 limit positive) (covered, lasting, λ h. impossible h)
  allow_with_details-Kept c r (replied, replied, adding, expiring) now limit served run positive le
        fresh before covers lasts =
      let key = limit_key api_key_id in
      let cleaned = cleaned_at r now in
      let (covered, lasting) = cleaned-Kept c r now served le covers lasts in
      let below = counted-cleaned (zs.at r now) (cutoff now) served covered in
      let member = member_name (unix_milli now) now in
      rw (lt→ltb 0 limit positive) (elim (Bool-cases (ltb (zs.zcard cleaned key) limit)) [
        | inl under ↦ rw under (
            record_request-Kept cleaned adding expiring now limit (zs.zcard cleaned key) served run
              (ltb→lt (zs.zcard cleaned key) limit under) below
              (fresh-zrem_range (zs.at r now) member (cutoff now) (fresh-at r member now fresh))
              before covered lasting)
        | inr full ↦ rw full (covered, lasting, λ h. impossible h)
      ])
