-- ===== src/Cache.antt =====
-- The LRU cache with a time to live, llm_gateway/internal/storage/cache.go.
-- A *list.Element is an address; the list holds the elements in order, the front first, and the
-- map holds addresses. Every method runs under the cache's mutex, so a call is one step. A
-- time.Time is a number of nanoseconds; `time.Now()` is the argument `now`.
pub mod Order
pub mod Capacity
pub mod Invariant
pub mod Cleanup
pub mod Lookup
pub mod Eviction
mod Tests
use think_pixel_llmgw.Prelude.{
  ℕ, zero, suc, ◌+◌, String, str_eq, Bool, Option, none, some, List, [], ◌∷◌, ltb, ◌==◌, length,
  if◌then◌else◌,
}

pub record CacheEntry {ℓ} (V : Type ℓ) : Type ℓ where
  pub key : String
  pub value : V
  pub expires_at : ℕ

-- A node of `container/list`: its address, and `Value`.
pub record Element {ℓ} (V : Type ℓ) : Type ℓ where
  pub address : ℕ
  pub entry : CacheEntry V
  pub open entry use *

pub record LruCache {ℓ} (V : Type ℓ) : Type ℓ where
  pub capacity : ℕ
  pub ttl : ℕ
  pub items : String → Option ℕ
  pub eviction_list : List (Element V)
  -- the address that the next element gets
  pub fresh : ℕ

-- `m[key] = v` (`some v`) and `delete(m, key)` (`none`) on a map.
abbrev pub assign {ℓ} : {A : Type ℓ} → (String → Option A) → String → Option A → String → Option A
assign m key o j = if str_eq key j then o else m j

module _ {ℓ} {V : Type ℓ} where
  -- `elem.Value` at an address
  pub deref : List (Element V) → ℕ → Option (CacheEntry V)
  deref [] a = none
  deref (e ∷ l) a = if e.address == a then some e.entry else deref l a

  -- `evictionList.Remove(elem)`
  pub unlink : List (Element V) → ℕ → List (Element V)
  unlink [] a = []
  unlink (e ∷ l) a = if e.address == a then l else e ∷ unlink l a

  -- `evictionList.Back()`
  pub back : List (Element V) → Option (Element V)
  back [] = none
  back (e ∷ []) = some e
  back (e ∷ e' ∷ l) = back (e' ∷ l)

  unfoldable pub new_lru_cache : ℕ → ℕ → LruCache V
  new_lru_cache capacity ttl = record {
    capacity = capacity;
    ttl = ttl;
    items = λ _. none;
    eviction_list = [];
    fresh = 0;
  }

  abbrev pub is_expired : ℕ → CacheEntry V → Bool
  is_expired now entry = ltb entry.expires_at now

  -- The element at `a`, whose value is `entry`, goes.
  pub remove_element : LruCache V → ℕ → CacheEntry V → LruCache V
  unfolding unlink
  remove_element c a entry = record c {
    items = assign c.items entry.key none;
    eviction_list = unlink c.eviction_list a;
  }

  pub move_to_front : LruCache V → ℕ → CacheEntry V → LruCache V
  unfolding unlink
  move_to_front c a entry = record c {
    eviction_list = record { address = a; entry = entry } ∷ unlink c.eviction_list a;
  }

  -- The part of `Get` behind `c.items[key]`. A dangling address, which the invariant excludes,
  -- reads as a miss.
  pub get_element : LruCache V → ℕ → ℕ → Option (CacheEntry V) → LruCache V × Option V
  unfolding remove_element move_to_front
  get_element c now a none = (c, none)
  get_element c now a (some entry) =
      if is_expired now entry
      then (remove_element c a entry, none)
      else (move_to_front c a entry, some entry.value)

  pub get_found : LruCache V → ℕ → Option ℕ → LruCache V × Option V
  unfolding get_element deref
  get_found c now none = (c, none)
  get_found c now (some a) = get_element c now a (deref c.eviction_list a)

  unfoldable pub get : LruCache V → ℕ → String → LruCache V × Option V
  unfolding get_found
  get c now key = get_found c now (c.items key)

  pub remove_back : LruCache V → Option (Element V) → LruCache V
  unfolding remove_element
  remove_back c none = c
  remove_back c (some e) = remove_element c e.address e.entry

  pub remove_oldest : LruCache V → LruCache V
  unfolding remove_back back
  remove_oldest c = remove_back c (back c.eviction_list)

  pub evict_if_over : LruCache V → LruCache V
  unfolding remove_oldest
  evict_if_over c = if ltb c.capacity (length c.eviction_list) then remove_oldest c else c

  pub push_front : LruCache V → CacheEntry V → LruCache V
  push_front c entry = record c {
    items = assign c.items entry.key (some c.fresh);
    eviction_list = record { address = c.fresh; entry = entry } ∷ c.eviction_list;
    fresh = suc c.fresh;
  }

  pub set_found : LruCache V → CacheEntry V → Option ℕ → LruCache V
  unfolding move_to_front push_front evict_if_over
  set_found c entry none = evict_if_over (push_front c entry)
  set_found c entry (some a) = move_to_front c a entry

  unfoldable pub set : LruCache V → ℕ → String → V → LruCache V
  unfolding set_found
  set c now key value =
      set_found c (record { key = key; value = value; expires_at = now + c.ttl }) (c.items key)

  pub delete_element : LruCache V → ℕ → Option (CacheEntry V) → LruCache V
  unfolding remove_element
  delete_element c a none = c
  delete_element c a (some entry) = remove_element c a entry

  pub delete_found : LruCache V → Option ℕ → LruCache V
  unfolding delete_element deref
  delete_found c none = c
  delete_found c (some a) = delete_element c a (deref c.eviction_list a)

  unfoldable pub delete : LruCache V → String → LruCache V
  unfolding delete_found
  delete c key = delete_found c (c.items key)

  unfoldable pub clear : LruCache V → LruCache V
  clear c = record c { items = λ _. none; eviction_list = [] }

  pub len : LruCache V → ℕ
  len c = length c.eviction_list

  -- The loop of `CleanupExpired` runs from the back to the front and reads `Prev` before a
  -- removal: it meets every element of the list that it started with, the last one first.
  pub cleanup_from : ℕ → List (Element V) → LruCache V → LruCache V × ℕ
  unfolding remove_element
  cleanup_from now [] c = (c, 0)
  cleanup_from now (e ∷ l) c =
      let (c', removed) = cleanup_from now l c in
      if is_expired now e.entry
      then (remove_element c' e.address e.entry, suc removed)
      else (c', removed)

  unfoldable pub cleanup_expired : LruCache V → ℕ → LruCache V × ℕ
  unfolding cleanup_from
  cleanup_expired c now = cleanup_from now c.eviction_list c

pub record CacheStats : Type 0 where
  pub capacity : ℕ
  pub size : ℕ
  pub ttl : ℕ

pub get_stats {ℓ} : {V : Type ℓ} → LruCache V → CacheStats
get_stats c = record { capacity = c.capacity; size = length c.eviction_list; ttl = c.ttl }

-- One call of a method, with the time at which it is made.
pub data CacheCall {ℓ} (V : Type ℓ) : Type ℓ where
  get_call : ℕ → String → CacheCall V
  set_call : ℕ → String → V → CacheCall V
  delete_call : String → CacheCall V
  clear_call : CacheCall V
  cleanup_call : ℕ → CacheCall V

module _ {ℓ} {V : Type ℓ} where
  pub call : LruCache V → CacheCall V → LruCache V
  unfolding get set delete clear cleanup_expired
  call c (get_call now key) = (get c now key).0
  call c (set_call now key value) = set c now key value
  call c (delete_call key) = delete c key
  call c clear_call = clear c
  call c (cleanup_call now) = (cleanup_expired c now).0

  pub calls : LruCache V → List (CacheCall V) → LruCache V
  unfolding call
  calls c [] = c
  calls c (k ∷ ks) = calls (call c k) ks
