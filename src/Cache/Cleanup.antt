-- ===== src/Cache/Cleanup.antt =====
-- `CleanupExpired` of cache.go, and the invariant over any calls.
use think_pixel_llmgw.Prelude.{
  ℕ, ◌+◌, ◌≡◌, refl, sym, ap, ◌∙◌, subst, List, [], ◌∷◌, ◌++◌, append_assoc, arith, length,
  if◌then◌else◌, Bool-cases, inl, inr,
}
use think_pixel_llmgw.Cache.{
  Element, LruCache, CacheCall, unlink, new_lru_cache, is_expired, remove_element, clear,
  cleanup_from, cleanup_expired, get_call, set_call, delete_call, clear_call, cleanup_call, call,
  calls,
}
use think_pixel_llmgw.Cache.Order.{index, IsDistinct, middle}
use think_pixel_llmgw.Cache.Invariant.{
  IsLinked, IsConsistent, remove_element-IsLinked, get-IsConsistent, set-IsConsistent,
  delete-IsConsistent,
}

module _ {ℓ} {V : Type ℓ} where
  -- The elements that have not expired, in order.
  abbrev pub live : ℕ → List (Element V) → List (Element V)
  live now [] = []
  live now (e ∷ l) = if is_expired now e.entry then live now l else e ∷ live now l

  -- What the loop has done when it stands before `l`, with `before` still to come.
  record CleanedUp (now : ℕ) (before l : List (Element V)) (c c' : LruCache V) (removed : ℕ)
      : Type ℓ where
    linked : IsLinked c'
    remaining : c'.eviction_list ≡ before ++ live now l
    counted : removed + length (live now l) ≡ length l
    same_capacity : c'.capacity ≡ c.capacity

  -- One more removal, of an element that stands between `before` and what the loop has kept.
  drop_element :
      (now : ℕ) (before : List (Element V)) (e : Element V) (l : List (Element V))
      (c c' : LruCache V) (removed : ℕ)
      → CleanedUp now (before ++ e ∷ []) l c c' removed
      → c'.eviction_list ≡ before ++ e ∷ live now l
      → (linked : IsLinked (remove_element c' e.address e.entry)) × ((remove_element c' e.address
            e.entry).eviction_list
          ≡ before ++ live now l)
  unfolding remove_element
  drop_element now before e l c c' removed r rest =
      let found = middle before e (live now l) (subst IsDistinct rest r.linked.distinct) in
      (
        remove_element-IsLinked c' e.address e.entry r.linked
            (r.linked.indexed e.key ∙ ap (λ l. index l e.key) rest ∙ found.0),
        ap (λ l. unlink l e.address) rest ∙ found.2,
      )

  cleanup_from-CleanedUp :
      (now : ℕ) (before l : List (Element V)) (c : LruCache V)
      → IsLinked c
      → c.eviction_list ≡ before ++ l
      → let (c', removed) = cleanup_from now l c in CleanedUp now before l c c' removed
  unfolding cleanup_from
  cleanup_from-CleanedUp now before [] c h same = record {
    linked = h;
    remaining = same;
    counted = refl;
    same_capacity = refl;
  }
  cleanup_from-CleanedUp now before (e ∷ l) c h same =
      let r =
        cleanup_from-CleanedUp now (before ++ e ∷ []) l c h
          (same ∙ sym (append_assoc before (e ∷ []) l)) in
      let rest : (cleanup_from now l c).0.eviction_list ≡ before ++ e ∷ live now l =
        r.remaining ∙ append_assoc before (e ∷ []) (live now l) in
      elim (Bool-cases (is_expired now e.entry)) [
        | inl late ↦
            let dropped =
              drop_element now before e l c (cleanup_from now l c).0 (cleanup_from now l c).1 r
                rest in
            rw late (record {
              linked = dropped.0;
              remaining = rw late dropped.1;
              counted = rw late (omega (arith, r.counted));
              same_capacity = unfold remove_element in r.same_capacity;
            })
        | inr fresh ↦ rw fresh (record {
          linked = r.linked;
          remaining = rw fresh rest;
          counted = rw fresh (omega (arith, r.counted));
          same_capacity = r.same_capacity;
        })
      ]

  -- After `CleanupExpired` the list holds the elements that had not expired, in their order, and the result is
  -- the number of the others.
  pub cleanup_expired_lem :
      (c : LruCache V) (now : ℕ)
      → IsConsistent c
      → ((cleanup_expired c now).0.eviction_list ≡ live now c.eviction_list)
        × ((cleanup_expired c now).1 + length (live now c.eviction_list) ≡ length c.eviction_list)
  unfolding cleanup_expired
  cleanup_expired_lem c now h =
      let r = cleanup_from-CleanedUp now [] c.eviction_list c h.linked refl in
      (r.remaining, r.counted)

  pub cleanup_expired-IsConsistent :
      (c : LruCache V) (now : ℕ) → IsConsistent c → IsConsistent (cleanup_expired c now).0
  unfolding cleanup_expired
  cleanup_expired-IsConsistent c now h =
      let r = cleanup_from-CleanedUp now [] c.eviction_list c h.linked refl in
      record {
        linked = r.linked;
        bounded = rw (r.remaining, r.same_capacity) (omega (arith, r.counted, h.bounded));
      }

  clear-IsConsistent : (c : LruCache V) → IsConsistent (clear c)
  unfolding clear
  clear-IsConsistent c = record {
    linked = record { indexed = λ k. unfold index in refl; distinct = tt; below = tt };
    bounded = omega arith;
  }

  pub new_lru_cache-IsConsistent :
      (capacity ttl : ℕ) → IsConsistent (new_lru_cache {V = V} capacity ttl)
  unfolding new_lru_cache
  new_lru_cache-IsConsistent capacity ttl = record {
    linked = record { indexed = λ k. unfold index in refl; distinct = tt; below = tt };
    bounded = omega arith;
  }

  call-IsConsistent : (c : LruCache V) (k : CacheCall V) → IsConsistent c → IsConsistent (call c k)
  unfolding call
  call-IsConsistent c (get_call now k) h = get-IsConsistent c now k h
  call-IsConsistent c (set_call now k v) h = set-IsConsistent c now k v h
  call-IsConsistent c (delete_call k) h = delete-IsConsistent c k h
  call-IsConsistent c clear_call h = clear-IsConsistent c
  call-IsConsistent c (cleanup_call now) h = cleanup_expired-IsConsistent c now h

  calls_from-IsConsistent :
      (c : LruCache V) (ks : List (CacheCall V)) → IsConsistent c → IsConsistent (calls c ks)
  unfolding calls
  calls_from-IsConsistent c [] h = h
  calls_from-IsConsistent c (k ∷ ks) h =
      calls_from-IsConsistent (call c k) ks (call-IsConsistent c k h)

  -- After any calls of Get, Set, Delete, Clear and CleanupExpired, at any times, on a new cache,
  -- the map gives for each key the address of the element that holds it (and nothing for a key
  -- that no element holds), no two elements share a key or an address, and the list has at
  -- most `capacity` elements.
  pub calls-IsConsistent :
      (capacity ttl : ℕ) (ks : List (CacheCall V))
      → IsConsistent (calls (new_lru_cache capacity ttl) ks)
  calls-IsConsistent capacity ttl ks =
      calls_from-IsConsistent (new_lru_cache capacity ttl) ks
        (new_lru_cache-IsConsistent capacity ttl)
