-- ===== src/RateLimit/Tests.antt =====
-- The theorems on the limiter at a server that is a function.
use think_pixel_llmgw.Prelude.{
  ℕ, String, str_eq, ◌≡◌, refl, true, false, Option, none, some, ◌⊎◌, inl, inr, Bool-cases, List,
  [], ◌∷◌, pos, arith, if◌then◌else◌, if-true, length, eq_refl, ap, ◌∙◌,
}
use think_pixel_llmgw.Redis.{replied}
use think_pixel_llmgw.RateLimit.{
  Members, has_passed, above, has_member, RedisSortedSets, limit_key, allow_with_details,
  check_limit,
}
use think_pixel_llmgw.RateLimit.Window.{Request, serve_all, WithinLimit, serve_all-WithinLimit}
use think_pixel_llmgw.RateLimit.Limits.{check_limit_admits_one_more}

abbrev without : String → Members → Members
without m [] = []
without m (x ∷ xs) = let rest = without m xs in if str_eq m x.1 then rest else x ∷ rest

-- A server that is a function from keys to a set and the time at which it expires.
abbrev Server : Type 0
Server = String → Members × Option ℕ

abbrev put : Server → String → Members × Option ℕ → Server
put r k v j = if str_eq k j then v else r j

without_absent : (m : String) (xs : Members) → has_member m xs ≡ false → without m xs ≡ xs
without_absent m [] h = refl
without_absent m (x ∷ xs) h = ground (arith, without_absent m xs)

put_self : (r : Server) (k : String) (v : Members × Option ℕ) → put r k v k ≡ v
put_self r k v = if-true _ _ (eq_refl k)

-- What is left of a set at a time.
abbrev unexpired : ℕ → Members × Option ℕ → Members × Option ℕ
unexpired now v = if has_passed now v.1 then ([], none) else v

unexpired_members :
    (now : ℕ) (v : Members × Option ℕ)
    → (unexpired now v).0 ≡ (if has_passed now v.1 then [] else v.0)
unexpired_members now v = elim (Bool-cases (has_passed now v.1)) [
  | inl passed ↦ rw passed refl
  | inr lasts ↦ rw lasts refl
]

unexpired_deadline :
    (now : ℕ) (v : Members × Option ℕ) → ((unexpired now v).1 ≡ v.1) ⊎ ((unexpired now v).1 ≡ none)
unexpired_deadline now v = elim (Bool-cases (has_passed now v.1)) [
  | inl passed ↦ inr (rw passed refl)
  | inr lasts ↦ inl (rw lasts refl)
]

abbrev sets : RedisSortedSets Server
sets = record {
  members = λ r k. (r k).0;
  zrem_range = λ r k high. put r k (above high (r k).0, (r k).1);
  zcard = λ r k. length (r k).0;
  zadd = λ r k s m. put r k ((s, m) ∷ without m (r k).0, (r k).1);
  expire = λ r k d. put r k ((r k).0, some d);
  del = λ r k. put r k ([], none);
  deadline = λ r k. (r k).1;
  at = λ r now k. unexpired now (r k);
  members-at = λ r now k. unexpired_members now (r k);
  members-expire = λ r k d. ap (λ v. v.0) (put_self r k ((r k).0, some d));
  deadline-at = λ r now k. unexpired_deadline now (r k);
  deadline-zrem_range =
      λ r k high. inl (ap (λ v. v.1) (put_self r k (above high (r k).0, (r k).1)));
  deadline-zadd =
      λ r k s m. inl (ap (λ v. v.1) (put_self r k ((s, m) ∷ without m (r k).0, (r k).1)));
  deadline-expire = λ r k d. inl (ap (λ v. v.1) (put_self r k ((r k).0, some d)));
  zcard_lem = λ r k. refl;
  members-zrem_range = λ r k high. ap (λ v. v.0) (put_self r k (above high (r k).0, (r k).1));
  members-zadd = λ r k s m h.
      ap (λ v. v.0) (put_self r k ((s, m) ∷ without m (r k).0, (r k).1))
      ∙ ap (λ l. (s, m) ∷ l) (without_absent m (r k).0 h);
  members-del = λ r k. ap (λ v. v.0) (put_self r k ([], none));
}

abbrev no_sets : Server
no_sets k = ([], none)

abbrev request : ℕ → Request
request now = record { now = now; links = (replied, replied, replied, replied) }

abbrev requests : List Request
requests =
    request 100000000000 ∷ request 100000001000 ∷ request 100000002000 ∷ request 170000000000 ∷ []

serve_all-WithinLimit_example : WithinLimit 2 (serve_all sets "k" 2 no_sets [] requests)
unfolding allow_with_details
serve_all-WithinLimit_example =
    serve_all-WithinLimit sets "k" 2 0 no_sets requests (omega arith)
      (omega arith, (omega arith, (omega arith, (omega arith, tt)))) (tt, (tt, (tt, (tt, tt))))
      (refl, (refl, (refl, (refl, tt))))

-- Two requests within the minute before the third.
abbrev busy_sets : Server
busy_sets = put no_sets (limit_key "k") ((100000, "a") ∷ (100001, "b") ∷ [], some 220001000000)

check_limit_admits_one_more_example :
    ((allow_with_details sets busy_sets
        (replied, replied, replied, replied)
        "k"
        110000000000
        (pos 2)).1.allowed
      ≡ false)
    × ((check_limit sets busy_sets replied "k" 110000000000 (pos 2)).1 ≡ some true)
unfolding limit_key
check_limit_admits_one_more_example =
    check_limit_admits_one_more sets "k" busy_sets 110000000000 2 (omega arith) refl
