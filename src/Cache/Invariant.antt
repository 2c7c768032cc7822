-- ===== src/Cache/Invariant.antt =====
-- The map and the list of cache.go agree after every call, and the list never outgrows the capacity.
use think_pixel_llmgw.Prelude.{
  ℕ, suc, ◌<◌, ◌≤◌, String, eq_iff, eq_refl, ◌≡◌, refl, sym, ap, ◌∙◌, subst, Option, none, some,
  List, [], ◌∷◌, arith, ltb, length, All, Bool-cases, inl, inr,
}
use think_pixel_llmgw.Cache.{
  CacheEntry, Element, LruCache, deref, back, is_expired, remove_element, move_to_front, get_found,
  get, remove_back, remove_oldest, evict_if_over, push_front, set_found, set, delete_found, delete,
}
use think_pixel_llmgw.Cache.Order.{
  index, IsDistinct, index-deref, index-unlink, deref-unlink_self, unlink-IsDistinct, length-unlink,
  All-unlink, deref-fresh, deref-lt, middle, back-append, back-none,
}

-- The map holds for each key the address of its element, elements do not share keys or addresses,
-- and the next address is not in use.
pub record IsLinked {ℓ} {V : Type ℓ} (c : LruCache V) : Type ℓ where
  pub indexed : (k : String) → c.items k ≡ index c.eviction_list k
  pub distinct : IsDistinct c.eviction_list
  pub below : All (λ (e : Element V). e.address < c.fresh) c.eviction_list

pub record IsConsistent {ℓ} {V : Type ℓ} (c : LruCache V) : Type ℓ where
  pub linked : IsLinked c
  pub bounded : length c.eviction_list ≤ c.capacity

module _ {ℓ} {V : Type ℓ} where
  pub remove_element-IsLinked :
      (c : LruCache V) (a : ℕ) (entry : CacheEntry V)
      → IsLinked c
      → c.items entry.key ≡ some a
      → IsLinked (remove_element c a entry)
  unfolding remove_element
  remove_element-IsLinked c a entry h at = record {
    indexed = λ k.
        let gone =
          index-unlink c.eviction_list entry.key k a h.distinct (sym (h.indexed entry.key) ∙ at) in
        rw (gone, h.indexed k);
    distinct = unlink-IsDistinct c.eviction_list a h.distinct;
    below = All-unlink _ c.eviction_list a h.below;
  }

  pub move_to_front-IsLinked :
      (c : LruCache V) (a : ℕ) (old new : CacheEntry V)
      → IsLinked c
      → c.items new.key ≡ some a
      → deref c.eviction_list a ≡ some old
      → IsLinked (move_to_front c a new)
  unfolding move_to_front index
  move_to_front-IsLinked c a old new h at here =
      let at' : index c.eviction_list new.key ≡ some a = sym (h.indexed new.key) ∙ at in
      record {
        indexed = λ k. ground (
          arith,
          index-unlink c.eviction_list new.key k a h.distinct at',
          h.indexed k,
          at,
          eq_iff new.key k,
        );
        distinct = (
          index-unlink c.eviction_list new.key new.key a h.distinct at'
              ∙ ground (arith, eq_refl new.key),
          deref-unlink_self c.eviction_list a h.distinct,
          unlink-IsDistinct c.eviction_list a h.distinct,
        );
        below = (
          deref-lt c.eviction_list a c.fresh h.below here,
          All-unlink _ c.eviction_list a h.below,
        );
      }

  pub push_front-IsLinked :
      (c : LruCache V) (entry : CacheEntry V)
      → IsLinked c
      → c.items entry.key ≡ none
      → IsLinked (push_front c entry)
  unfolding push_front index
  push_front-IsLinked c entry h absent = record {
    indexed = λ k. ground (arith, h.indexed k);
    distinct = (
      sym (h.indexed entry.key) ∙ absent,
      deref-fresh c.eviction_list c.fresh h.below,
      h.distinct,
    );
    below = (omega arith, All-below c.eviction_list h.below);
  }
    where
      All-below :
          (l : List (Element V))
          → All (λ e. e.address < c.fresh) l
          → All (λ e. e.address < suc c.fresh) l
      All-below [] k = k
      All-below (e ∷ l) k = (omega arith, All-below l k.1)

  remove_back-IsLinked :
      (c : LruCache V) (o : Option (Element V))
      → IsLinked c
      → back c.eviction_list ≡ o
      → IsLinked (remove_back c o)
  unfolding remove_back
  remove_back-IsLinked c none h at = h
  remove_back-IsLinked c (some e) h at =
      let (before, same) = back-append c.eviction_list at in
      let found = middle before e [] (subst IsDistinct same h.distinct) in
      remove_element-IsLinked c e.address e.entry h
        (h.indexed e.key ∙ ap (λ l. index l e.key) same ∙ found.0)

  pub length-remove_back :
      (c : LruCache V) (o : Option (Element V)) (n : ℕ)
      → IsLinked c
      → back c.eviction_list ≡ o
      → length c.eviction_list ≤ suc n
      → length (remove_back c o).eviction_list ≤ n
  unfolding remove_back remove_element
  length-remove_back c none n h at le = omega (arith, back-none c.eviction_list at)
  length-remove_back c (some e) n h at le =
      let (before, same) = back-append c.eviction_list at in
      let found = middle before e [] (subst IsDistinct same h.distinct) in
      omega (
        arith,
        length-unlink c.eviction_list e.address (ap (λ l. deref l e.address) same ∙ found.1),
      )

  capacity-remove_back :
      (c : LruCache V) (o : Option (Element V)) → (remove_back c o).capacity ≡ c.capacity
  unfolding remove_back remove_element
  capacity-remove_back c none = refl
  capacity-remove_back c (some e) = refl

  evict_if_over-IsConsistent :
      (c : LruCache V)
      → IsLinked c
      → length c.eviction_list ≤ suc c.capacity
      → IsConsistent (evict_if_over c)
  unfolding evict_if_over remove_oldest
  evict_if_over-IsConsistent c h le = elim (Bool-cases (ltb c.capacity (length c.eviction_list))) [
    | inl over ↦ rw over (record {
      linked = remove_back-IsLinked c (back c.eviction_list) h refl;
      bounded =
          rw (capacity-remove_back c (back c.eviction_list))
            (length-remove_back c (back c.eviction_list) c.capacity h refl le);
    })
    | inr under ↦ rw under (record { linked = h; bounded = ground arith })
  ]

  -- A key of the map has an element, which holds it.
  pub find :
      (c : LruCache V) (k : String) (a : ℕ)
      → IsConsistent c
      → c.items k ≡ some a
      → (entry : CacheEntry V) × (deref c.eviction_list a ≡ some entry) × (entry.key ≡ k)
  find c k a h at =
      index-deref c.eviction_list k a h.linked.distinct (sym (h.linked.indexed k) ∙ at)

  removed-IsConsistent :
      (c : LruCache V) (a : ℕ) (entry : CacheEntry V)
      → IsConsistent c
      → c.items entry.key ≡ some a
      → deref c.eviction_list a ≡ some entry
      → IsConsistent (remove_element c a entry)
  unfolding remove_element
  removed-IsConsistent c a entry h at here = record {
    linked = remove_element-IsLinked c a entry h.linked at;
    bounded = omega (arith, h.bounded, length-unlink c.eviction_list a here);
  }

  moved-IsConsistent :
      (c : LruCache V) (a : ℕ) (new : CacheEntry V)
      → IsConsistent c
      → c.items new.key ≡ some a
      → IsConsistent (move_to_front c a new)
  unfolding move_to_front
  moved-IsConsistent c a new h at =
      let (old, here, _) = find c new.key a h at in
      record {
        linked = move_to_front-IsLinked c a old new h.linked at here;
        bounded = omega (arith, h.bounded, length-unlink c.eviction_list a here);
      }

  set_found-IsConsistent :
      (c : LruCache V) (entry : CacheEntry V) (o : Option ℕ)
      → IsConsistent c
      → c.items entry.key ≡ o
      → IsConsistent (set_found c entry o)
  unfolding set_found
  set_found-IsConsistent c entry none h at =
      evict_if_over-IsConsistent (push_front c entry) (push_front-IsLinked c entry h.linked at)
        (unfold push_front in omega (arith, h.bounded))
  set_found-IsConsistent c entry (some a) h at = moved-IsConsistent c a entry h at

  delete_found-IsConsistent :
      (c : LruCache V) (k : String) (o : Option ℕ)
      → IsConsistent c
      → c.items k ≡ o
      → IsConsistent (delete_found c o)
  unfolding delete_found
  delete_found-IsConsistent c k none h at = h
  delete_found-IsConsistent c k (some a) h at =
      let (entry, here, holds) = find c k a h at in
      rw here (removed-IsConsistent c a entry h (ap c.items holds ∙ at) here)

  get_found-IsConsistent :
      (c : LruCache V) (now : ℕ) (k : String) (o : Option ℕ)
      → IsConsistent c
      → c.items k ≡ o
      → IsConsistent (get_found c now o).0
  unfolding get_found
  get_found-IsConsistent c now k none h at = h
  get_found-IsConsistent c now k (some a) h at =
      let (entry, here, holds) = find c k a h at in
      let at' : c.items entry.key ≡ some a = ap c.items holds ∙ at in
      rw here (elim (Bool-cases (is_expired now entry)) [
        | inl late ↦ rw late (removed-IsConsistent c a entry h at' here)
        | inr live ↦ rw live (moved-IsConsistent c a entry h at')
      ])

  pub get-IsConsistent :
      (c : LruCache V) (now : ℕ) (k : String) → IsConsistent c → IsConsistent (get c now k).0
  unfolding get
  get-IsConsistent c now k h = get_found-IsConsistent c now k (c.items k) h refl

  pub set-IsConsistent :
      (c : LruCache V) (now : ℕ) (k : String) (v : V)
      → IsConsistent c
      → IsConsistent (set c now k v)
  unfolding set
  set-IsConsistent c now k v h = set_found-IsConsistent c _ (c.items k) h refl

  pub delete-IsConsistent :
      (c : LruCache V) (k : String) → IsConsistent c → IsConsistent (delete c k)
  unfolding delete
  delete-IsConsistent c k h = delete_found-IsConsistent c k (c.items k) h refl
