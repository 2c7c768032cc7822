-- ===== src/Cache/Capacity.antt =====
-- No method of the cache changes its capacity.
use think_pixel_llmgw.Prelude.{
  ℕ, String, ◌≡◌, refl, Option, none, some, Bool-cases, inl, inr, ltb, length,
}
use think_pixel_llmgw.Cache.{
  CacheEntry, Element, LruCache, deref, back, is_expired, remove_element, move_to_front,
  get_element, get_found, get, remove_back, remove_oldest, evict_if_over, push_front, set_found,
  set, delete_element, delete_found, delete,
}

module _ {ℓ} {V : Type ℓ} where
  get_element-capacity :
      (c : LruCache V) (now a : ℕ) (o : Option (CacheEntry V))
      → (get_element c now a o).0.capacity ≡ c.capacity
  unfolding get_element remove_element move_to_front
  get_element-capacity c now a none = refl
  get_element-capacity c now a (some e) = elim (Bool-cases (is_expired now e)) [
    | inl late ↦ rw late refl
    | inr live ↦ rw live refl
  ]

  get_found-capacity :
      (c : LruCache V) (now : ℕ) (o : Option ℕ) → (get_found c now o).0.capacity ≡ c.capacity
  unfolding get_found
  get_found-capacity c now none = refl
  get_found-capacity c now (some a) = get_element-capacity c now a (deref c.eviction_list a)

  pub get-capacity : (c : LruCache V) (now : ℕ) (k : String) → (get c now k).0.capacity ≡ c.capacity
  unfolding get
  get-capacity c now k = get_found-capacity c now (c.items k)

  remove_back-capacity :
      (c : LruCache V) (o : Option (Element V)) → (remove_back c o).capacity ≡ c.capacity
  unfolding remove_back remove_element
  remove_back-capacity c none = refl
  remove_back-capacity c (some e) = refl

  evict_if_over-capacity : (c : LruCache V) → (evict_if_over c).capacity ≡ c.capacity
  unfolding evict_if_over remove_oldest
  evict_if_over-capacity c = elim (Bool-cases (ltb c.capacity (length c.eviction_list))) [
    | inl over ↦ rw over (remove_back-capacity c (back c.eviction_list))
    | inr under ↦ rw under refl
  ]

  set_found-capacity :
      (c : LruCache V) (e : CacheEntry V) (o : Option ℕ) → (set_found c e o).capacity ≡ c.capacity
  unfolding set_found move_to_front push_front
  set_found-capacity c e none = evict_if_over-capacity (push_front c e)
  set_found-capacity c e (some a) = refl

  pub set-capacity :
      (c : LruCache V) (now : ℕ) (k : String) (v : V) → (set c now k v).capacity ≡ c.capacity
  unfolding set
  set-capacity c now k v = set_found-capacity c _ (c.items k)

  delete_element-capacity :
      (c : LruCache V) (a : ℕ) (o : Option (CacheEntry V))
      → (delete_element c a o).capacity ≡ c.capacity
  unfolding delete_element remove_element
  delete_element-capacity c a none = refl
  delete_element-capacity c a (some e) = refl

  delete_found-capacity : (c : LruCache V) (o : Option ℕ) → (delete_found c o).capacity ≡ c.capacity
  unfolding delete_found
  delete_found-capacity c none = refl
  delete_found-capacity c (some a) = delete_element-capacity c a (deref c.eviction_list a)

  pub delete-capacity : (c : LruCache V) (k : String) → (delete c k).capacity ≡ c.capacity
  unfolding delete
  delete-capacity c k = delete_found-capacity c (c.items k)
