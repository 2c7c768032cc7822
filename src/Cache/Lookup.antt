-- ===== src/Cache/Lookup.antt =====
-- What `Get` of cache.go answers, read from the list alone, and how the methods change that.
use think_pixel_llmgw.Prelude.{
  ℕ, ◌≤◌, String, str_eq, eq_iff, ◌≡◌, refl, sym, ◌∙◌, Option, none, some, List, [], ◌∷◌, arith,
  if◌then◌else◌, Bool-cases, inl, inr,
}
use think_pixel_llmgw.Cache.{
  new_lru_cache, CacheEntry, Element, LruCache, deref, unlink, is_expired, get_found, get,
  delete_found, delete, cleanup_expired,
}
use think_pixel_llmgw.Cache.Order.{index, IsDistinct, address_ne}
use think_pixel_llmgw.Cache.Invariant.{IsConsistent, find, get-IsConsistent, delete-IsConsistent}
use think_pixel_llmgw.Cache.Cleanup.{live, cleanup_expired_lem, cleanup_expired-IsConsistent}

module _ {ℓ} {V : Type ℓ} where
  -- The entry of the first element with a key.
  unfoldable pub entry_of : List (Element V) → String → Option (CacheEntry V)
  entry_of [] k = none
  entry_of (e ∷ l) k = if str_eq e.key k then some e.entry else entry_of l k

  -- What a reader at time `now` gets of an entry.
  abbrev pub answer : ℕ → Option (CacheEntry V) → Option V
  answer now none = none
  answer now (some entry) = if is_expired now entry then none else some entry.value

  pub entry_of-none : (l : List (Element V)) (k : String) → index l k ≡ none → entry_of l k ≡ none
  unfolding entry_of index
  entry_of-none [] k h = refl
  entry_of-none (e ∷ l) k h = elim (Bool-cases (str_eq e.key k)) [
    | inl same ↦ absurd (cc (rw same at h))
    | inr other ↦ rw other (entry_of-none l k (rw other at h))
  ]

  pub entry_of-some :
      (l : List (Element V)) (k : String) (a : ℕ)
      → IsDistinct l
      → index l k ≡ some a
      → deref l a ≡ entry_of l k
  unfolding entry_of index deref
  entry_of-some [] k a d h = cc
  entry_of-some (e ∷ l) k a d h = elim (Bool-cases (str_eq e.key k)) [
    | inl same ↦ ground (arith, rw same at h)
    | inr other ↦
        let h' : index l k ≡ some a = rw other at h in
        rw (other, address_ne e l k a d h') (entry_of-some l k a d.2 h')
  ]

  pub entry_of-unlink :
      (l : List (Element V)) (k j : String) (a : ℕ)
      → IsDistinct l
      → index l k ≡ some a
      → entry_of (unlink l a) j ≡ (if str_eq k j then none else entry_of l j)
  unfolding entry_of unlink index
  entry_of-unlink [] k j a d h = cc
  entry_of-unlink (e ∷ l) k j a d h = elim (Bool-cases (str_eq e.key k)) [
    | inl same ↦
        let absent : entry_of l k ≡ none = entry_of-none l k (rw (← (eq_iff e.key k).0 same) d.0) in
        ground (arith, absent, rw same at h, eq_iff e.key k, eq_iff k j, eq_iff e.key j)
    | inr other ↦
        let h' : index l k ≡ some a = rw other at h in
        rw (address_ne e l k a d h') (
          ground
            (arith, entry_of-unlink l k j a d.2 h', eq_iff e.key k, eq_iff k j, eq_iff e.key j))
  ]

  -- `deref` behind the map is the list's own reading of the key.
  pub entry_of-eq-deref :
      (c : LruCache V) (k : String) (a : ℕ)
      → IsConsistent c
      → c.items k ≡ some a
      → deref c.eviction_list a ≡ entry_of c.eviction_list k
  entry_of-eq-deref c k a h at =
      entry_of-some c.eviction_list k a h.linked.distinct (sym (h.linked.indexed k) ∙ at)

  get_found-answer :
      (c : LruCache V) (now : ℕ) (k : String) (o : Option ℕ)
      → IsConsistent c
      → c.items k ≡ o
      → (get_found c now o).1 ≡ answer now (entry_of c.eviction_list k)
  unfolding get_found
  get_found-answer c now k none h at =
      rw (entry_of-none c.eviction_list k (sym (h.linked.indexed k) ∙ at))
  get_found-answer c now k (some a) h at =
      let (entry, here, holds) = find c k a h at in
      rw (← entry_of-eq-deref c k a h at, here) (ground arith)

  pub get-answer :
      (c : LruCache V) (now : ℕ) (k : String)
      → IsConsistent c
      → (get c now k).1 ≡ answer now (entry_of c.eviction_list k)
  unfolding get
  get-answer c now k h = get_found-answer c now k (c.items k) h refl

  -- An element that is unlinked behind the map: the list's reading of every key afterwards.
  pub entry_of-removed :
      (c : LruCache V) (k j : String) (a : ℕ)
      → IsConsistent c
      → c.items k ≡ some a
      → entry_of (unlink c.eviction_list a) j
        ≡ (if str_eq k j then none else entry_of c.eviction_list j)
  entry_of-removed c k j a h at =
      entry_of-unlink c.eviction_list k j a h.linked.distinct (sym (h.linked.indexed k) ∙ at)

  delete_found-entry_of :
      (c : LruCache V) (k j : String) (o : Option ℕ)
      → IsConsistent c
      → c.items k ≡ o
      → entry_of (delete_found c o).eviction_list j
        ≡ (if str_eq k j then none else entry_of c.eviction_list j)
  unfolding delete_found
  delete_found-entry_of c k j none h at =
      ground (arith, eq_iff k j, entry_of-none c.eviction_list k (sym (h.linked.indexed k) ∙ at))
  delete_found-entry_of c k j (some a) h at =
      let (entry, here, holds) = find c k a h at in rw here (entry_of-removed c k j a h at)

  pub delete-entry_of :
      (c : LruCache V) (k j : String)
      → IsConsistent c
      → entry_of (delete c k).eviction_list j
        ≡ (if str_eq k j then none else entry_of c.eviction_list j)
  unfolding delete
  delete-entry_of c k j h = delete_found-entry_of c k j (c.items k) h refl

  -- A read leaves what later reads answer, for every key.
  get_found-later :
      (c : LruCache V) (now later : ℕ) (k j : String) (o : Option ℕ)
      → IsConsistent c
      → now ≤ later
      → c.items k ≡ o
      → answer later (entry_of (get_found c now o).0.eviction_list j)
        ≡ answer later (entry_of c.eviction_list j)
  unfolding get_found entry_of
  get_found-later c now later k j none h le at = refl
  get_found-later c now later k j (some a) h le at =
      let (entry, here, holds) = find c k a h at in
      rw here (
        ground (
          arith,
          entry_of-removed c k j a h at,
          entry_of-eq-deref c k a h at,
          here,
          holds,
          eq_iff k j,
          eq_iff entry.key j,
        ))

  -- On a consistent cache a Get changes no answer of a later Get, of its own key or another.
  pub get-get :
      (c : LruCache V) (now later : ℕ) (k j : String)
      → IsConsistent c
      → now ≤ later
      → (get (get c now k).0 later j).1 ≡ (get c later j).1
  get-get c now later k j h le =
      rw (get-answer (get c now k).0 later j (get-IsConsistent c now k h), get-answer c later j h)
        (unfold get in get_found-later c now later k j (c.items k) h le refl)

  -- On a consistent cache a Get after `Delete(k)` finds nothing at `k` and answers as before at
  -- every other key.
  pub get-delete :
      (c : LruCache V) (later : ℕ) (k j : String)
      → IsConsistent c
      → (get (delete c k) later j).1 ≡ (if str_eq k j then none else (get c later j).1)
  get-delete c later k j h =
      rw
        (
          get-answer (delete c k) later j (delete-IsConsistent c k h),
          get-answer c later j h,
          delete-entry_of c k j h,
        )
        (ground (arith, eq_iff k j))

  answer-live :
      (l : List (Element V)) (now later : ℕ) (j : String)
      → IsDistinct l
      → now ≤ later
      → answer later (entry_of (live now l) j) ≡ answer later (entry_of l j)
  unfolding entry_of
  answer-live [] now later j d le = refl
  answer-live (e ∷ l) now later j d le =
      let absent = entry_of-none l e.key d.0 in
      ground (arith, answer-live l now later j d.2 le, absent, eq_iff e.key j)

  -- On a consistent cache CleanupExpired changes no answer of a later Get.
  pub get-cleanup_expired :
      (c : LruCache V) (now later : ℕ) (j : String)
      → IsConsistent c
      → now ≤ later
      → (get (cleanup_expired c now).0 later j).1 ≡ (get c later j).1
  get-cleanup_expired c now later j h le =
      rw
        (
          get-answer (cleanup_expired c now).0 later j (cleanup_expired-IsConsistent c now h),
          get-answer c later j h,
          (cleanup_expired_lem c now h).0,
        )
        (answer-live c.eviction_list now later j h.linked.distinct le)

  -- A new cache holds nothing.
  pub get-new :
      (capacity ttl now : ℕ) (k : String)
      → (get (new_lru_cache {V = V} capacity ttl) now k).1 ≡ none
  unfolding get get_found new_lru_cache
  get-new capacity ttl now k = refl
