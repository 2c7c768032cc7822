-- ===== src/Cache/Eviction.antt =====
-- `Set` of cache.go: what a later `Get` answers for every key, the evicted one included.
use think_pixel_llmgw.Prelude.{
  ℕ, suc, ◌+◌, ◌<◌, String, str_eq, eq_iff, ◌≡◌, refl, ap, ◌∙◌, subst, Bool, true, false, ◌&&◌,
  Option, none, some, List, [], ◌∷◌, arith, ltb, leb, length, if◌then◌else◌, Bool-cases,
  Option-cases, inl, inr,
}
use think_pixel_llmgw.Cache.{
  CacheEntry, Element, LruCache, back, remove_element, move_to_front, push_front, remove_back,
  remove_oldest, evict_if_over, set_found, set, get,
}
use think_pixel_llmgw.Cache.Order.{index, IsDistinct, middle, back-append, back-none}
use think_pixel_llmgw.Cache.Invariant.{
  IsLinked, IsConsistent, push_front-IsLinked, set-IsConsistent,
}
use think_pixel_llmgw.Cache.Lookup.{entry_of, entry_of-unlink, entry_of-removed, get-answer}

abbrev pub is_absent : Option ℕ → Bool
is_absent none = true
is_absent (some _) = false

module _ {ℓ} {V : Type ℓ} where
  abbrev pub is_key_of : String → Option (Element V) → Bool
  is_key_of j none = false
  is_key_of j (some e) = str_eq e.key j

  -- Whether `Set` of `k` has to make room, and `j` is the key at the back.
  abbrev pub is_evicted : LruCache V → String → String → Bool
  is_evicted c k j =
      is_absent (c.items k)
      && leb c.capacity (length c.eviction_list)
      && is_key_of j (back c.eviction_list)

  back-index :
      (c : LruCache V) {e : Element V}
      → IsLinked c
      → back c.eviction_list ≡ some e
      → index c.eviction_list e.key ≡ some e.address
  back-index c {e} h at =
      let (before, same) = back-append c.eviction_list at in
      let found = middle before e [] (subst IsDistinct same h.distinct) in
      ap (λ l. index l e.key) same ∙ found.0

  back-cons :
      (l : List (Element V)) (x : Element V) {e : Element V}
      → back l ≡ some e
      → back (x ∷ l) ≡ some e
  unfolding back
  back-cons [] x h = cc
  back-cons (y ∷ l) x h = h

  back-push_front :
      (c : LruCache V) (new : CacheEntry V) {e : Element V}
      → back c.eviction_list ≡ some e
      → back (push_front c new).eviction_list ≡ some e
  unfolding push_front
  back-push_front c new h = back-cons c.eviction_list _ h

  full_back : (l : List (Element V)) → 0 < length l → (e : Element V) × (back l ≡ some e)
  full_back l h = elim (Option-cases (back l)) [
    | inl nothing ↦ absurd (omega (arith, back-none l nothing))
    | inr found ↦ found
  ]

  other_key :
      (c : LruCache V) (new : CacheEntry V) (e : Element V)
      → IsConsistent c
      → c.items new.key ≡ none
      → back c.eviction_list ≡ some e
      → str_eq new.key e.key ≡ false
  other_key c new e h absent last = elim (Bool-cases (str_eq new.key e.key)) [
    | inr ne ↦ ne
    | inl same ↦ absurd (
        cc (
          back-index c h.linked last,
          h.linked.indexed new.key,
          absent,
          (eq_iff new.key e.key).0 same,
        ))
  ]

  -- The new element has been pushed, and the oldest one goes.
  entry_of-evicted :
      (c : LruCache V) (new : CacheEntry V) (e : Element V) (j : String)
      → IsConsistent c
      → c.items new.key ≡ none
      → back c.eviction_list ≡ some e
      → entry_of (remove_oldest (push_front c new)).eviction_list j ≡ (
          if str_eq new.key j
          then some new
          else if str_eq e.key j
          then none
          else entry_of c.eviction_list j)
  unfolding remove_oldest
  entry_of-evicted c new e j h absent last =
      let linked = push_front-IsLinked c new h.linked absent in
      let last' = back-push_front c new last in
      let gone =
        entry_of-unlink (push_front c new).eviction_list e.key j e.address linked.distinct
          (back-index (push_front c new) linked last') in
      rw last' (
        unfold remove_back remove_element in
        rw gone (
          unfold push_front entry_of in
          ground (
            arith,
            other_key c new e h absent last,
            eq_iff new.key e.key,
            eq_iff new.key j,
            eq_iff e.key j,
          )))

  evict_if_over-full :
      (c : LruCache V) (new : CacheEntry V)
      → leb c.capacity (length c.eviction_list) ≡ true
      → evict_if_over (push_front c new) ≡ remove_oldest (push_front c new)
  unfolding evict_if_over push_front
  evict_if_over-full c new full =
      let over : ltb c.capacity (suc (length c.eviction_list)) ≡ true = ground arith in rw over

  evict_if_over-room :
      (c : LruCache V) (new : CacheEntry V)
      → leb c.capacity (length c.eviction_list) ≡ false
      → evict_if_over (push_front c new) ≡ push_front c new
  unfolding evict_if_over push_front
  evict_if_over-room c new room =
      let under : ltb c.capacity (suc (length c.eviction_list)) ≡ false = ground arith in rw under

  set_found-entry_of :
      (c : LruCache V) (new : CacheEntry V) (j : String) (o : Option ℕ)
      → IsConsistent c
      → 0 < c.capacity
      → c.items new.key ≡ o
      → entry_of (set_found c new o).eviction_list j ≡ (
          if str_eq new.key j
          then some new
          else if is_absent o
              && leb c.capacity (length c.eviction_list)
              && is_key_of j (back c.eviction_list)
          then none
          else entry_of c.eviction_list j)
  unfolding set_found
  set_found-entry_of c new j (some a) h room at =
      unfold move_to_front entry_of in ground (arith, entry_of-removed c new.key j a h at)
  set_found-entry_of c new j none h room at =
      elim (Bool-cases (leb c.capacity (length c.eviction_list))) [
        | inl full ↦
            let (e, last) = full_back c.eviction_list (ground arith) in
            ap (λ d. entry_of d.eviction_list j) (evict_if_over-full c new full)
            ∙ entry_of-evicted c new e j h at last
            ∙ rw (full, last)
        | inr under ↦
            rw (evict_if_over-room c new under, under) (unfold push_front entry_of in refl)
      ]

  -- On a consistent cache of positive capacity, a Get of any key `j` after `Set(k, v)`: at `k` it
  -- answers `v` until `ttl` has passed since the Set and nothing afterwards; at the key that stood
  -- at the back, nothing, if `k` was new and the cache was full; at any other key, what it would
  -- have answered without the Set.
  pub get-set :
      (c : LruCache V) (now later : ℕ) (k j : String) (v : V)
      → IsConsistent c
      → 0 < c.capacity
      → (get (set c now k v) later j).1 ≡ (
          if str_eq k j
          then (if ltb (now + c.ttl) later then none else some v)
          else if is_evicted c k j
          then none
          else (get c later j).1)
  get-set c now later k j v h room =
      rw (get-answer (set c now k v) later j (set-IsConsistent c now k v h), get-answer c later j h)
        (unfold set in
          rw
            (set_found-entry_of c (record { key = k; value = v; expires_at = now + c.ttl }) j
              (c.items k) h room refl)
            (ground arith))
