-- ===== src/Cache/Tests.antt =====
-- The cache's theorems at concrete caches.
use think_pixel_llmgw.Prelude.{ℕ, ◌≡◌, none, List, [], ◌∷◌, arith}
use think_pixel_llmgw.Cache.{
  LruCache, CacheCall, new_lru_cache, get, set, delete, cleanup_expired, get_call, set_call,
  delete_call, clear_call, cleanup_call, calls, call, clear, cleanup_from, get_found, get_element,
  set_found, move_to_front, push_front, evict_if_over, remove_oldest, remove_back, back,
  remove_element, unlink, deref, delete_found, delete_element,
}
use think_pixel_llmgw.Cache.Invariant.{IsConsistent}
use think_pixel_llmgw.Cache.Cleanup.{calls-IsConsistent}
use think_pixel_llmgw.Cache.Eviction.{get-set}

abbrev history : List (CacheCall ℕ)
history =
    set_call 0 "a" 1
    ∷ set_call 1 "b" 2
    ∷ get_call 2 "a"
    ∷ set_call 3 "c" 3
    ∷ delete_call "c"
    ∷ clear_call
    ∷ set_call 4 "a" 5
    ∷ cleanup_call 5
    ∷ set_call 6 "b" 7
    ∷ []

-- The keys "b" and "a" in a full cache of capacity 2.
abbrev pub full_cache : LruCache ℕ
full_cache = calls (new_lru_cache 2 10) history

calls-IsConsistent_example : IsConsistent full_cache
calls-IsConsistent_example = calls-IsConsistent 2 10 history

full_cache-IsConsistent : IsConsistent full_cache
full_cache-IsConsistent = calls-IsConsistent 2 10 history

-- A new key evicts the key at the back.
get-set_example : (get (set full_cache 7 "c" 9) 8 "a").1 ≡ none
unfolding calls call get set delete clear cleanup_expired cleanup_from get_found get_element
    set_found move_to_front push_front evict_if_over remove_oldest remove_back back remove_element
    unlink deref delete_found delete_element new_lru_cache
get-set_example = get-set full_cache 7 8 "c" "a" 9 full_cache-IsConsistent (omega arith)
