-- ===== src/RateLimit/Scores.antt =====
-- The scores of a sorted set above a bound, and when they are cut off.
use think_pixel_llmgw.Prelude.{
  ℕ, ◌-◌, ◌≤◌, inl, inr, String, true, false, List, [], ◌∷◌, ◌≡◌, refl, ap, ltb, if◌then◌else◌,
  length, arith, Bool-cases,
}
use think_pixel_llmgw.RateLimit.{Members, has_member, above, unix_milli, window_start}

-- The scores above `high`.
abbrev pub scores_above : ℕ → List ℕ → List ℕ
scores_above high [] = []
scores_above high (x ∷ xs) =
    let rest = scores_above high xs in if ltb high x then x ∷ rest else rest

pub length-scores_above : (high : ℕ) (xs : List ℕ) → length (scores_above high xs) ≤ length xs
length-scores_above high [] = omega arith
length-scores_above high (x ∷ xs) = ground (arith, length-scores_above high xs)

abbrev pub scores : Members → List ℕ
scores [] = []
scores (x ∷ xs) = x.0 ∷ scores xs

pub scores-above :
    (high : ℕ) (xs : Members) → scores (above high xs) ≡ scores_above high (scores xs)
scores-above high [] = refl
scores-above high (x ∷ xs) = elim (Bool-cases (ltb high x.0)) [
  | inl e ↦ rw e (ap (λ l. x.0 ∷ l) (scores-above high xs))
  | inr e ↦ rw e (scores-above high xs)
]

pub above-twice :
    (a b : ℕ) (xs : List ℕ) → a ≤ b → scores_above b (scores_above a xs) ≡ scores_above b xs
above-twice a b [] h = refl
above-twice a b (x ∷ xs) h = ground (arith, above-twice a b xs h)

pub length-scores : (xs : Members) → length (scores xs) ≡ length xs
length-scores [] = refl
length-scores (x ∷ xs) = omega (arith, length-scores xs)

pub has_member-above :
    (m : String) (high : ℕ) (xs : Members)
    → has_member m xs ≡ false
    → has_member m (above high xs) ≡ false
has_member-above m high [] h = refl
has_member-above m high (x ∷ xs) h = ground (arith, has_member-above m high xs)

pub impossible : {A : Type 0} → false ≡ true → A
impossible h = ground arith

-- The score below which a request at `now` cleans the set.
abbrev pub cutoff : ℕ → ℕ
cutoff now = unix_milli (window_start now)

pub cutoff-unix_milli : (now : ℕ) → cutoff now ≡ unix_milli now - 60000
cutoff-unix_milli now = omega arith

pub cutoff-monotone : (a b : ℕ) → a ≤ b → cutoff a ≤ cutoff b
cutoff-monotone a b h = omega arith
