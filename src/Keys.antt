-- ===== src/Keys.antt =====
-- The stored API keys: llm_gateway/internal/storage/api_key_repository.go over the tables
-- api_keys and api_key_tags and the LRU cache, the store of
-- llm_gateway/internal/httpapi/api_key_store.go, and Update, Delete and Regenerate of
-- llm_gateway/internal/httpapi/admin_api_keys_handler.go behind their parsing of the request.
-- Keys/Tables.antt holds the SQL statements. A Bool says whether a query works, a Link how a statement that writes fares.
pub mod Tables
pub mod Lookup
pub mod Revocation
pub mod Handlers
mod Tests
use think_pixel_llmgw.Prelude.{
  ℕ, zero, suc, String, str_eq, Bool, true, false, not, ◌&&◌, ◌||◌, Option, none, some, List, [],
  ◌∷◌, ◌++◌, map, ℤ, if◌then◌else◌,
}
use think_pixel_llmgw.Redis.{Link, replied, refused, reply_lost}
use think_pixel_llmgw.Cache.{LruCache, assign}
use think_pixel_llmgw.Cache
use think_pixel_llmgw.Keys.Tables.{
  TagRow, select_by_hash, select_by_id, with_tags, violates, update_rows, delete_rows, delete_tags,
  upsert_tag, remove_tag, load_tags,
}
use think_pixel_llmgw.Auth.{
  ApiKey, ApiKeyRecord, Looked, looked_up, key_not_found, lookup_failed, is_expired,
}

pub record Repository {ℓ} (W : Type ℓ) : Type ℓ where
  pub rows : List (ApiKey W)
  pub tag_rows : List TagRow
  pub cache : LruCache (ApiKey W)

pub data Found {ℓ} (W : Type ℓ) : Type ℓ where
  found : ApiKey W → Found W
  missing query_failed : Found W

-- What a write returns: nil, ErrAPIKeyNotFound, or another error.
pub data Written : Type 0 where
  written not_found write_failed : Written

abbrev pub is_some {κ} : {A : Type κ} → Option A → Bool
is_some none = false
is_some (some _) = true

-- The handlers behind the parsing of the path: the status of the answer.
abbrev pub status_of : Written → ℕ
status_of written = 200
status_of not_found = 500
status_of write_failed = 500

module _ {ℓ} {W : Type ℓ} where
  -- GetByHash behind its look into the cache.
  unfoldable pub load_by_hash :
      Repository W → ℕ → String → Bool → Option (ApiKey W) → Repository W × Found W
  load_by_hash r now h tags_work none = (r, missing)
  load_by_hash r now h tags_work (some k) =
      if tags_work
      then (let key = with_tags r.tag_rows k in
          (record r { cache = Cache.set r.cache now h key }, found key))
      else (r, query_failed)

  unfoldable pub answer_hit :
      Repository W → ℕ → String → Bool × Bool → Option (ApiKey W) → Repository W × Found W
  unfolding load_by_hash
  answer_hit r now h works (some k) = (r, found k)
  answer_hit r now h (query_works, tags_work) none =
      if query_works
      then load_by_hash r now h tags_work (select_by_hash r.rows h)
      else (r, query_failed)

  unfoldable pub get_by_hash : Repository W → ℕ → String → Bool × Bool → Repository W × Found W
  unfolding answer_hit
  get_by_hash r now h works =
      let (cache, hit) = Cache.get r.cache now h in
      answer_hit (record r { cache = cache }) now h works hit

  unfoldable pub get_by_id : Repository W → String → Bool × Bool → Found W
  get_by_id r id (query_works, tags_work) =
      if query_works
      then (elim (select_by_id r.rows id) [
        | none ↦ missing
        | some k ↦ if tags_work then found (with_tags r.tag_rows k) else query_failed
      ])
      else query_failed

  -- `key` has the ID that `uuid.New` drew, if it came without one. A new row has no tags.
  unfoldable pub create : Repository W → Link → ApiKey W → Repository W × Written
  create r refused key = (r, write_failed)
  create r replied key =
      if violates r.rows key
      then (r, write_failed)
      else (record r { rows = key ∷ r.rows; cache = Cache.delete r.cache key.key_hash }, written)
  create r reply_lost key =
      if violates r.rows key
      then (r, write_failed)
      else (record r { rows = key ∷ r.rows }, write_failed)

  unfoldable pub update : Repository W → ℕ → Link → ApiKey W → Repository W × Written
  unfolding update_rows select_by_id
  update r now refused key = (r, write_failed)
  update r now reply_lost key = (record r { rows = update_rows now key r.rows }, write_failed)
  update r now replied key =
      if is_some (select_by_id r.rows key.id)
      then (
        record r { rows = update_rows now key r.rows; cache = Cache.delete r.cache key.key_hash },
        written,
      )
      else (r, not_found)

  unfoldable pub delete_key : Repository W → Bool → Link → String → Repository W × Written
  unfolding select_by_id delete_rows delete_tags
  delete_key r false link id = (r, write_failed)
  delete_key r true refused id = (r, write_failed)
  delete_key r true reply_lost id = (
    record r { rows = delete_rows id r.rows; tag_rows = delete_tags id r.tag_rows },
    write_failed,
  )
  delete_key r true replied id = elim (select_by_id r.rows id) [
    | none ↦ (r, not_found)
    | some k ↦ (
      record r {
        rows = delete_rows id r.rows;
        tag_rows = delete_tags id r.tag_rows;
        cache = if str_eq k.key_hash "" then r.cache else Cache.delete r.cache k.key_hash;
      },
      written,
    )
  ]

  abbrev pub drop_hash : Repository W → Option (ApiKey W) → Repository W
  drop_hash r none = r
  drop_hash r (some k) = record r { cache = Cache.delete r.cache k.key_hash }

  -- The end of SetTag and DeleteTag; `hash_works` says whether the hash can be read.
  unfoldable pub drop_cached : Repository W → Bool → String → Repository W
  unfolding select_by_id
  drop_cached r false id = r
  drop_cached r true id = drop_hash r (select_by_id r.rows id)

  -- A tag of a key that is not there violates the foreign key.
  unfoldable pub set_tag :
      Repository W → Link → Bool → String → String → String → Repository W × Written
  unfolding drop_cached upsert_tag
  set_tag r refused hash_works id key value = (r, write_failed)
  set_tag r link hash_works id key value =
      if is_some (select_by_id r.rows id)
      then (let r' = record r { tag_rows = upsert_tag r.tag_rows id key value } in
          elim link [ replied ↦ (drop_cached r' hash_works id, written) | _ ↦ (r', write_failed) ])
      else (r, write_failed)

  unfoldable pub delete_tag : Repository W → Link → Bool → String → String → Repository W × Written
  unfolding drop_cached remove_tag
  delete_tag r refused hash_works id key = (r, write_failed)
  delete_tag r reply_lost hash_works id key =
      (record r { tag_rows = remove_tag r.tag_rows id key }, write_failed)
  delete_tag r replied hash_works id key =
      (drop_cached (record r { tag_rows = remove_tag r.tag_rows id key }) hash_works id, written)

  -- DatabaseAPIKeyStore.Lookup; `hash_password` is utils.HashPassword.
  unfoldable pub to_record : ApiKey W → ℕ → ApiKeyRecord
  unfolding is_expired
  to_record k now = record {
    id = k.id;
    name = k.name;
    allowed_models = k.allowed_models;
    rate_limit_per_minute = k.rate_limit_per_minute;
    tags = k.tags;
    revoked = not k.enabled || is_expired k now;
  }

  unfoldable pub as_looked : Found W → ℕ → Looked
  unfolding to_record
  as_looked missing now = key_not_found
  as_looked query_failed now = lookup_failed
  as_looked (found k) now = looked_up (to_record k now)

  unfoldable pub lookup :
      (String → String) → Repository W → ℕ → Bool × Bool → String → Repository W × Looked
  unfolding get_by_hash as_looked
  lookup hash_password r now works plaintext_key =
      let (r', f) = get_by_hash r now (hash_password plaintext_key) works in (r', as_looked f now)

  -- What a handler does with the key that GetByID returned.
  unfoldable pub with_key :
      Repository W → Found W → (ApiKey W → Repository W × ℕ) → Repository W × ℕ
  with_key r missing f = (r, 404)
  with_key r query_failed f = (r, 500)
  with_key r (found k) f = f k

  -- AdminAPIKeysHandler.Delete
  unfoldable pub revoke : Repository W → ℕ → Bool × Bool → Link → String → Repository W × ℕ
  unfolding get_by_id update with_key
  revoke r now works link id =
      with_key r (get_by_id r id works)
        (λ k. let (r', w) = update r now link (record k { enabled = false }) in (r', status_of w))

  -- AdminAPIKeysHandler.Regenerate; `new_key` is what generateAPIKey draws.
  unfoldable pub regenerate :
      (String → String) → Repository W → ℕ → Bool × Bool → Link → String → String → Repository W × ℕ
  unfolding get_by_id update with_key
  regenerate hash_api_key r now works link id new_key = with_key r (get_by_id r id works) (λ k.
      let (r', w) = update r now link (record k { key_hash = hash_api_key new_key }) in
      (r', status_of w))
