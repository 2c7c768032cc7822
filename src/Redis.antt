-- ===== src/Redis.antt =====
-- What the gateway relies on of a Redis server (github.com/redis/go-redis, not in this repository):
-- string values and lists under keys, with the documented effect of the commands. The 60 days
-- after which a monthly total expires, and other expiries, lie outside the model.
use think_pixel_llmgw.Prelude.{
  ℕ, zero, suc, ◌-◌, List, [], ◌∷◌, ◌++◌, length, take, drop, All, Bool-cases, inl, inr, false,
  arith, subst, sym, if-false, eq_iff, ap, eq_refl, if-true, String, str_eq, ◌≡◌, refl, Option,
  none, some, if◌then◌else◌,
}

-- How a command or a script fares: the server ran it and the reply came; it did not run; it ran,
-- and the reply was lost.
pub data Link : Type 0 where
  replied refused reply_lost : Link

-- GET, SET and DEL on keys that hold values of W; R is the state of the server.
pub record RedisValues {ℓ} (R W : Type ℓ) : Type ℓ where
  pub get : R → String → Option W
  pub set : R → String → W → R
  pub del : R → String → R
  pub get-set :
      (r : R) (k j : String) (v : W) → get (set r k v) j ≡ (if str_eq k j then some v else get r j)
  pub get-del : (r : R) (k j : String) → get (del r k) j ≡ (if str_eq k j then none else get r j)

-- A server that is a function from keys to values.
abbrev pub function_values {ℓ} : {W : Type ℓ} → RedisValues (String → Option W) W
function_values = record {
  get = λ r k. r k;
  set = λ r k v j. if str_eq k j then some v else r j;
  del = λ r k j. if str_eq k j then none else r j;
  get-set = λ r k j v. refl;
  get-del = λ r k j. refl;
}

abbrev pub head_of {ℓ} : {T : Type ℓ} → List T → Option T
head_of [] = none
head_of (x ∷ xs) = some x

abbrev pub tail_of {ℓ} : {T : Type ℓ} → List T → List T
tail_of [] = []
tail_of (x ∷ xs) = xs

-- The elements from 0 to n - 1 of a list, as LRANGE has it: to -1 is to the end.
abbrev pub take_range {ℓ} : {T : Type ℓ} → ℕ → List T → List T
take_range zero xs = xs
take_range (suc n) xs = take (suc n) xs

-- RPUSH, LPOP, LLEN, LRANGE k 0 (n - 1), LTRIM k n -1 (`ltrim`), LTRIM k -n -1 for n > 0
-- (`ltrim_last`) and DEL on keys that hold lists of T; `items` is the list under a key.
pub record RedisLists {ℓ} (R T : Type ℓ) : Type ℓ where
  pub items : R → String → List T
  pub rpush : R → String → List T → R
  pub lpop : R → String → R
  pub llen : R → String → ℕ
  pub lrange : R → String → ℕ → List T
  pub ltrim : R → String → ℕ → R
  pub ltrim_last : R → String → ℕ → R
  pub del : R → String → R
  pub items-rpush : (r : R) (k : String) (xs : List T) → items (rpush r k xs) k ≡ items r k ++ xs
  pub items-lpop : (r : R) (k : String) → items (lpop r k) k ≡ tail_of (items r k)
  pub llen_lem : (r : R) (k : String) → llen r k ≡ length (items r k)
  pub lrange_lem : (r : R) (k : String) (n : ℕ) → lrange r k n ≡ take_range n (items r k)
  pub items-ltrim : (r : R) (k : String) (n : ℕ) → items (ltrim r k n) k ≡ drop n (items r k)
  pub items-ltrim_last :
      (r : R) (k : String) (n : ℕ)
      → items (ltrim_last r k n) k ≡ drop (length (items r k) - n) (items r k)
  pub items-del : (r : R) (k : String) → items (del r k) k ≡ []

abbrev pub put_list {ℓ} : {T : Type ℓ} → (String → List T) → String → List T → String → List T
put_list r k xs j = if str_eq k j then xs else r j

pub put_list_self {ℓ} :
    {T : Type ℓ} (r : String → List T) (k : String) (xs : List T) → put_list r k xs k ≡ xs
put_list_self r k xs = if-true _ _ (eq_refl k)

-- A server of lists that is a function from keys to lists.
abbrev pub function_lists {ℓ} : {T : Type ℓ} → RedisLists (String → List T) T
function_lists = record {
  items = λ r k. r k;
  rpush = λ r k xs. put_list r k (r k ++ xs);
  lpop = λ r k. put_list r k (tail_of (r k));
  llen = λ r k. length (r k);
  lrange = λ r k n. take_range n (r k);
  ltrim = λ r k n. put_list r k (drop n (r k));
  ltrim_last = λ r k n. put_list r k (drop (length (r k) - n) (r k));
  del = λ r k. put_list r k [];
  items-rpush = λ r k xs. put_list_self r k (r k ++ xs);
  items-lpop = λ r k. put_list_self r k (tail_of (r k));
  llen_lem = λ r k. refl;
  lrange_lem = λ r k n. refl;
  items-ltrim = λ r k n. put_list_self r k (drop n (r k));
  items-ltrim_last = λ r k n. put_list_self r k (drop (length (r k) - n) (r k));
  items-del = λ r k. put_list_self r k [];
}

abbrev pub entry_at {ℓ} : {T : Type ℓ} → String → List (String × T) → Option T
entry_at f [] = none
entry_at f (e ∷ es) = if str_eq (e.0) f then some (e.1) else entry_at f es

-- HSET, HDEL and HGETALL on the hash under a key. HGETALL gives every field with its value, in an
-- order that is not specified; what a command does not name stays as it is.
pub record RedisHashes {ℓ} (R T : Type ℓ) : Type (ℓ + 1) where
  pub hset : R → String → String → T → R
  pub hdel : R → String → String → R
  pub hgetall : R → String → List (String × T)
  pub entry_at-hset :
      (r : R) (k f g : String) (v : T)
      → entry_at g (hgetall (hset r k f v) k)
        ≡ (if str_eq f g then some v else entry_at g (hgetall r k))
  pub entry_at-hdel :
      (r : R) (k f g : String)
      → entry_at g (hgetall (hdel r k f) k)
        ≡ (if str_eq f g then none else entry_at g (hgetall r k))
  pub All-hset :
      (P : String × T → Type ℓ) (r : R) (k f : String) (v : T)
      → All P (hgetall r k)
      → P (f, v)
      → All P (hgetall (hset r k f v) k)
  pub All-hdel :
      (P : String × T → Type ℓ) (r : R) (k f : String)
      → All P (hgetall r k)
      → All P (hgetall (hdel r k f) k)

abbrev pub without_field {ℓ} : {T : Type ℓ} → String → List (String × T) → List (String × T)
without_field f [] = []
without_field f (e ∷ es) =
    let rest = without_field f es in if str_eq (e.0) f then rest else e ∷ rest

str_eq_sym : (a b : String) → str_eq b a ≡ false → str_eq a b ≡ false
str_eq_sym a b not = elim (Bool-cases (str_eq a b)) [
  | inl is ↦ absurd (ground (arith, not, (eq_iff b a).1 (sym ((eq_iff a b).0 is))))
  | inr past ↦ past
]

pub entry_at-without_field {ℓ} :
    {T : Type ℓ} (f g : String) (es : List (String × T))
    → entry_at g (without_field f es) ≡ (if str_eq f g then none else entry_at g es)
entry_at-without_field f g [] = ground arith
entry_at-without_field f g (e ∷ es) =
    let rest = entry_at-without_field f g es in
    elim (Bool-cases (str_eq (e.0) f)) [
      | inl is ↦
          let same : str_eq f g ≡ str_eq (e.0) g =
            ap (λ x. str_eq x g) (sym ((eq_iff (e.0) f).0 is)) in
          ground (arith, is, same, rest)
      | inr not ↦ elim (Bool-cases (str_eq (e.0) g)) [
        | inl at ↦
            let other : str_eq f g ≡ false =
              rw (← (eq_iff (e.0) g).0 at) (str_eq_sym f (e.0) not) in
            ground (arith, not, at, other, rest)
        | inr past ↦ ground (arith, not, past, rest)
      ]
    ]

pub after_put {ℓ} :
    {T : Type ℓ} (f g : String) (v : T) (es : List (String × T))
    → entry_at g ((f, v) ∷ without_field f es) ≡ (if str_eq f g then some v else entry_at g es)
after_put f g v es = let rest = entry_at-without_field f g es in ground (arith, rest)

pub All-without_field {ℓ} :
    {T : Type ℓ} (P : String × T → Type ℓ) (f : String) (es : List (String × T))
    → All P es
    → All P (without_field f es)
All-without_field P f [] h = tt
All-without_field P f (e ∷ es) (p, h) = elim (Bool-cases (str_eq (e.0) f)) [
  | inl is ↦ subst (All P) (sym (if-true _ _ is)) (All-without_field P f es h)
  | inr not ↦ subst (All P) (sym (if-false _ _ not)) (p, All-without_field P f es h)
]

-- A server of hashes that is a function from keys to lists of fields.
abbrev pub function_hashes {ℓ} : {T : Type ℓ} → RedisHashes (String → List (String × T)) T
function_hashes = record {
  hset = λ r k f v. put_list r k ((f, v) ∷ without_field f (r k));
  hdel = λ r k f. put_list r k (without_field f (r k));
  hgetall = λ r k. r k;
  entry_at-hset =
      λ r k f g v. rw (put_list_self r k ((f, v) ∷ without_field f (r k))) (after_put f g v (r k));
  entry_at-hdel =
      λ r k f g. rw (put_list_self r k (without_field f (r k))) (entry_at-without_field f g (r k));
  All-hset =
      λ P r k f v h p. subst (All P) (sym (put_list_self r k _)) (p, All-without_field P f (r k) h);
  All-hdel = λ P r k f h. subst (All P) (sym (put_list_self r k _)) (All-without_field P f (r k) h);
}
