-- ===== src/Keys/Lookup.antt =====
-- A cached key is what the database holds.
use think_pixel_llmgw.Prelude.{
  ℕ, ◌≤◌, ◌<◌, String, eq_iff, Bool, true, Option, none, some, List, ◌≡◌, refl, sym, ◌∙◌, ◌⊎◌, inl,
  inr, arith, Bool-cases, Option-cases, subst,
}
use think_pixel_llmgw.Cache.{LruCache, new_lru_cache}
use think_pixel_llmgw.Cache
use think_pixel_llmgw.Cache.Invariant.{IsConsistent, get-IsConsistent, set-IsConsistent}
use think_pixel_llmgw.Cache.Capacity.{get-capacity, set-capacity}
use think_pixel_llmgw.Cache.Lookup.{get-get, get-new}
use think_pixel_llmgw.Cache.Cleanup.{new_lru_cache-IsConsistent}
use think_pixel_llmgw.Cache.Eviction.{get-set}
use think_pixel_llmgw.Auth.{ApiKey}
use think_pixel_llmgw.Keys.Tables.{TagRow, select_by_hash, with_tags}
use think_pixel_llmgw.Keys.{
  Repository, Found, found, missing, load_by_hash, answer_hit, get_by_hash,
}

-- What a Get answers after a Set was set, or answered before.
get-set_some {ℓ} :
    {V : Type ℓ} (c : LruCache V) (now later : ℕ) (h j : String) (v k : V)
    → IsConsistent c
    → 0 < c.capacity
    → (Cache.get (Cache.set c now h v) later j).1 ≡ some k
    → ((h ≡ j) × (some v ≡ some k)) ⊎ ((Cache.get c later j).1 ≡ some k)
get-set_some c now later h j v k consistent room hit =
    let same = sym (get-set c now later h j v consistent room) ∙ hit in
    ground (arith, same, eq_iff h j)

module _ {ℓ} {W : Type ℓ} where
  -- The key that the database holds for a hash, with its tags.
  abbrev pub loaded : Repository W → String → Option (ApiKey W)
  loaded r h = elim (select_by_hash r.rows h) [
    | none ↦ none
    | some k ↦ some (with_tags r.tag_rows k)
  ]

  abbrev pub as_found : Option (ApiKey W) → Found W
  as_found none = missing
  as_found (some k) = found k

  -- From the time `t` on, what the cache answers is what the database holds.
  pub record IsCoherent (t : ℕ) (r : Repository W) : Type ℓ where
    pub consistent : IsConsistent r.cache
    pub room : 0 < r.cache.capacity
    pub agrees :
        (later : ℕ) (h : String) (k : ApiKey W)
        → t ≤ later
        → (Cache.get r.cache later h).1 ≡ some k
        → loaded r h ≡ some k

  -- Over a new cache any tables make a coherent repository.
  pub new_repository-IsCoherent :
      (rows : List (ApiKey W)) (tag_rows : List TagRow) (capacity ttl : ℕ)
      → 0 < capacity
      → IsCoherent 0
          (record { rows = rows; tag_rows = tag_rows; cache = new_lru_cache capacity ttl })
  unfolding new_lru_cache
  new_repository-IsCoherent rows tag_rows capacity ttl room = record {
    consistent = new_lru_cache-IsConsistent capacity ttl;
    room = room;
    agrees = λ later h k le hit. ground (arith, get-new {V = ApiKey W} capacity ttl later h, hit);
  }

  -- On a coherent repository whose queries work, GetByHash returns what the database holds for
  -- the hash, whether it reads the cache or the database.
  pub get_by_hash_lem :
      (t now : ℕ) (r : Repository W) (h : String)
      → t ≤ now
      → IsCoherent t r
      → (get_by_hash r now h (true, true)).1 ≡ as_found (loaded r h)
  unfolding get_by_hash answer_hit load_by_hash
  get_by_hash_lem t now r h le coherent = elim (Option-cases (Cache.get r.cache now h).1) [
    | inl miss ↦ rw miss (elim (Option-cases (select_by_hash r.rows h)) [
      | inl none_there ↦ ground (arith, none_there)
      | inr (k, there) ↦ ground (arith, there)
    ])
    | inr (k, hit) ↦ rw (hit, coherent.agrees now h k le hit) refl
  ]

  get-IsCoherent :
      (t now : ℕ) (r : Repository W) (h : String)
      → t ≤ now
      → IsCoherent t r
      → IsCoherent now (record r { cache = (Cache.get r.cache now h).0 })
  get-IsCoherent t now r h le coherent = record {
    consistent = get-IsConsistent r.cache now h coherent.consistent;
    room = rw (get-capacity r.cache now h) coherent.room;
    agrees = λ later j k at hit.
        coherent.agrees later j k (omega arith)
          (sym (get-get r.cache now later h j coherent.consistent at) ∙ hit);
  }

  set-IsCoherent :
      (now : ℕ) (r : Repository W) (h : String) (k : ApiKey W)
      → loaded r h ≡ some k
      → IsCoherent now r
      → IsCoherent now (record r { cache = Cache.set r.cache now h k })
  set-IsCoherent now r h k holds coherent = record {
    consistent = set-IsConsistent r.cache now h k coherent.consistent;
    room = rw (set-capacity r.cache now h k) coherent.room;
    agrees = λ later j k' at hit.
        elim (get-set_some r.cache now later h j k k' coherent.consistent coherent.room hit) [
          | inl (here, same) ↦ subst (λ i. loaded r i ≡ some k') here (holds ∙ same)
          | inr before ↦ coherent.agrees later j k' at before
        ];
  }

  -- On a coherent repository, GetByHash leaves it coherent, whichever of its queries work: what
  -- the cache answers from then on is what the database holds.
  pub get_by_hash-IsCoherent :
      (t now : ℕ) (r : Repository W) (h : String) (works : Bool × Bool)
      → t ≤ now
      → IsCoherent t r
      → IsCoherent now (get_by_hash r now h works).0
  unfolding get_by_hash answer_hit load_by_hash
  get_by_hash-IsCoherent t now r h (query_works, tags_work) le coherent =
      let read = get-IsCoherent t now r h le coherent in
      elim (Option-cases (Cache.get r.cache now h).1) [
        | inr (k, hit) ↦ rw hit read
        | inl miss ↦ rw miss (elim (Bool-cases query_works) [
          | inr broken ↦ rw broken read
          | inl works ↦ rw works (elim (Option-cases (select_by_hash r.rows h)) [
            | inl absent ↦ rw absent read
            | inr (k, there) ↦ rw there (elim (Bool-cases tags_work) [
              | inr broken ↦ rw broken read
              | inl loads ↦ rw loads (
                  set-IsCoherent now (record r { cache = (Cache.get r.cache now h).0 }) h
                    (with_tags r.tag_rows k) (ground (arith, there)) read)
            ])
          ])
        ])
      ]
