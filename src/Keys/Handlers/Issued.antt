-- ===== src/Keys/Handlers/Issued.antt =====
-- A key that Create issues authenticates.
use think_pixel_llmgw.Prelude.{
  ℕ, ltb, String, str_eq, eq_refl, Bool, true, false, Option, none, some, List, [], ◌∷◌, ◌≡◌, refl,
  sym, ap, ◌∙◌, arith, subst, Bool-cases, Option-cases, inl, inr,
}
use think_pixel_llmgw.Redis.{Link, replied, refused, reply_lost}
use think_pixel_llmgw.Cache
use think_pixel_llmgw.Cache.Invariant.{IsConsistent, delete-IsConsistent}
use think_pixel_llmgw.Cache.Lookup.{get-delete}
use think_pixel_llmgw.Auth.{ApiKey, ApiKeyRecord, looked_up, is_expired}
use think_pixel_llmgw.Keys.Tables.{
  select_by_hash, select_by_id, violates, with_tags, upsert_tag, load_tags,
}
use think_pixel_llmgw.Keys.{
  Repository, Written, written, not_found, write_failed, create, set_tag, drop_cached, drop_hash,
  is_some, lookup, get_by_hash, answer_hit, load_by_hash, to_record, as_looked,
}
use think_pixel_llmgw.Keys.Handlers.{
  CreateApiKeyRequest, or_true, create_key, set_tags, issued, after_insert, insert_key, new_key,
  expiry, link_of, links_after,
}

-- Whether a time of expiry has passed.
abbrev pub is_past : ℕ → Option ℕ → Bool
is_past now none = false
is_past now (some t) = ltb t now

module _ {ℓ} {W : Type ℓ} where
  -- The cache has nothing for the hash at any time, and the hash is found as the key in the table.
  pub record IsFresh (h : String) (key : ApiKey W) (r : Repository W) : Type ℓ where
    pub consistent : IsConsistent r.cache
    pub uncached : (later : ℕ) → (Cache.get r.cache later h).1 ≡ none
    pub stored : select_by_hash r.rows h ≡ some key

  delete-uncached :
      (c : Cache.LruCache (ApiKey W)) (h j : String)
      → IsConsistent c
      → ((later : ℕ) → (Cache.get c later h).1 ≡ none)
      → (later : ℕ) → (Cache.get (Cache.delete c j) later h).1 ≡ none
  delete-uncached c h j consistent uncached later = elim (Bool-cases (str_eq j h)) [
    | inl same ↦ get-delete c later j h consistent ∙ rw same refl
    | inr differs ↦ get-delete c later j h consistent ∙ rw differs (uncached later)
  ]

  found_first :
      (r : Repository W) (key : ApiKey W)
      → key.enabled ≡ true
      → select_by_hash (key ∷ r.rows) key.key_hash ≡ some key
  unfolding select_by_hash
  found_first r key on = ground (arith, on, eq_refl key.key_hash)

  drop_hash-IsFresh :
      (h : String) (key : ApiKey W) (r : Repository W) (o : Option (ApiKey W))
      → IsFresh h key r
      → IsFresh h key (drop_hash r o)
  drop_hash-IsFresh h key r none fresh = fresh
  drop_hash-IsFresh h key r (some k) fresh = record {
    consistent = delete-IsConsistent r.cache k.key_hash fresh.consistent;
    uncached = delete-uncached r.cache h k.key_hash fresh.consistent fresh.uncached;
    stored = fresh.stored;
  }

  set_tag-IsFresh :
      (h : String) (key : ApiKey W) (r : Repository W) (link : Link) (id name value : String)
      → IsFresh h key r
      → IsFresh h key (set_tag r link true id name value).0
  unfolding set_tag drop_cached
  set_tag-IsFresh h key r refused id name value fresh = fresh
  set_tag-IsFresh h key r replied id name value fresh =
      let tagged : IsFresh h key (record r { tag_rows = upsert_tag r.tag_rows id name value }) =
        record {
          consistent = fresh.consistent;
          uncached = fresh.uncached;
          stored = fresh.stored;
        } in
      elim (Bool-cases (is_some (select_by_id r.rows id))) [
        | inl there ↦ rw there (
            drop_hash-IsFresh h key (record r { tag_rows = upsert_tag r.tag_rows id name value })
              (select_by_id r.rows id) tagged)
        | inr gone ↦ rw gone fresh
      ]
  set_tag-IsFresh h key r reply_lost id name value fresh =
      elim (Bool-cases (is_some (select_by_id r.rows id))) [
        | inl there ↦ rw there (record {
          consistent = fresh.consistent;
          uncached = fresh.uncached;
          stored = fresh.stored;
        })
        | inr gone ↦ rw gone fresh
      ]

  set_tags-IsFresh :
      (h : String) (key : ApiKey W) (r : Repository W) (links : List Link) (id : String)
      (tags : List (String × String))
      → IsFresh h key r
      → IsFresh h key (set_tags r links id tags)
  unfolding set_tags
  set_tags-IsFresh h key r links id [] fresh = fresh
  set_tags-IsFresh h key r links id ((name, value) ∷ more) fresh =
      set_tags-IsFresh h key (set_tag r (link_of links) true id name value).0 (links_after links) id
        more (set_tag-IsFresh h key r (link_of links) id name value fresh)

  -- A fresh key is what a lookup of it returns.
  lookup-IsFresh :
      (hash_password : String → String) (plaintext : String) (key : ApiKey W) (r : Repository W)
      (later : ℕ)
      → IsFresh (hash_password plaintext) key r
      → (lookup hash_password r later (true, true) plaintext).1
        ≡ looked_up (to_record (with_tags r.tag_rows key) later)
  unfolding lookup get_by_hash answer_hit load_by_hash as_looked
  lookup-IsFresh hash_password plaintext key r later fresh =
      rw (fresh.uncached later, fresh.stored) refl

  create-IsFresh :
      (r r' : Repository W) (link : Link) (key : ApiKey W)
      → IsConsistent r.cache
      → key.enabled ≡ true
      → create r link key ≡ (r', written)
      → IsFresh key.key_hash key r'
  unfolding create
  create-IsFresh r r' refused key consistent on made = ground (arith, made)
  create-IsFresh r r' reply_lost key consistent on made = elim (Bool-cases (violates r.rows key)) [
    | inl taken ↦ ground (arith, taken, made)
    | inr free ↦ ground (arith, free, made)
  ]
  create-IsFresh r r' replied key consistent on made = elim (Bool-cases (violates r.rows key)) [
    | inl taken ↦ ground (arith, taken, made)
    | inr free ↦
        let is : record r { rows = key ∷ r.rows; cache = Cache.delete r.cache key.key_hash } ≡ r' =
          ground (arith, free, made) in
        subst (IsFresh key.key_hash key) is (record {
          consistent = delete-IsConsistent r.cache key.key_hash consistent;
          uncached = λ later.
              get-delete r.cache later key.key_hash key.key_hash consistent
              ∙ ground (arith, eq_refl key.key_hash);
          stored = found_first r key on;
        })
  ]

  after_insert-issued :
      (link : Link) (links : List Link) (id plaintext shown : String)
      (tags : List (String × String)) (r' : Repository W) (w : Repository W × Written)
      → after_insert link links id plaintext tags w ≡ (r', issued shown)
      → (r₁ : Repository W) × (w ≡ (r₁, written))
        × (set_tags r₁ links id tags ≡ r')
        × (plaintext ≡ shown)
  after_insert-issued link links id plaintext shown tags r' (r₁, written) made =
      (r₁, refl, ground (arith, made), ground (arith, made))
  after_insert-issued link links id plaintext shown tags r' (r₁, not_found) made =
      ground (arith, made)
  after_insert-issued link links id plaintext shown tags r' (r₁, write_failed) made =
      ground (arith, made)

  is_expired-is_past :
      (k : ApiKey W) (now : ℕ) (o : Option ℕ) → k.expires_at ≡ o → is_expired k now ≡ is_past now o
  unfolding is_expired
  is_expired-is_past k now none e = rw e refl
  is_expired-is_past k now (some t) e = rw e refl

  -- Where Create issues a key on a repository with a consistent cache, for a request that does not
  -- disable it, a lookup of the key that it shows, at any later time, finds a record with the new
  -- ID, the requested name and models and the tags in the table, revoked only if the requested
  -- time of expiry has passed; SetTag may fail, and caches of the hash do not matter.
  pub create_key-authenticates :
      (hash_api_key : String → String) (parse : String → Option ℕ) (r r' : Repository W)
      (now later : ℕ) (link : Link) (links : List Link) (id plaintext shown : String)
      (req : CreateApiKeyRequest W)
      → IsConsistent r.cache
      → or_true req.enabled ≡ true
      → create_key hash_api_key parse r now link links id plaintext req ≡ (r', issued shown)
      → (k : ApiKeyRecord) × (expires_at : Option ℕ) × ((lookup hash_api_key r' later
            (true, true)
            shown).1
          ≡ looked_up k)
        × (expiry parse req.expires_at ≡ some expires_at)
        × (k.id ≡ id)
        × (k.name ≡ req.name)
        × (k.allowed_models ≡ req.allowed_models)
        × (k.tags ≡ load_tags r'.tag_rows id)
        × (k.revoked ≡ is_past later expires_at)
  unfolding create_key to_record
  create_key-authenticates hash_api_key parse r r' now later link links id plaintext shown req
        consistent on made =
      elim (Bool-cases (str_eq req.name "")) [
        | inl unnamed ↦ ground (arith, unnamed, made)
        | inr named ↦ elim (Option-cases (expiry parse req.expires_at)) [
          | inl bad ↦ ground (arith, named, bad, made)
          | inr (expires_at, good) ↦
              let key = new_key id (hash_api_key plaintext) now req expires_at in
              let inserted : after_insert link links id plaintext req.tags (create r link key)
                  ≡ (r', issued shown) =
                sym (ap (insert_key hash_api_key r now link links id plaintext req) good)
                ∙ ground (arith, named, made) in
              let (r₁, wrote, tagged, same) =
                after_insert-issued link links id plaintext shown req.tags r' (create r link key)
                  inserted in
              let fresh = subst (IsFresh (hash_api_key plaintext) key) tagged (
                set_tags-IsFresh (hash_api_key plaintext) key r₁ links id req.tags
                  (create-IsFresh r r₁ link key consistent on wrote)) in
              (
                to_record (with_tags r'.tag_rows key) later,
                expires_at,
                ap (λ p. (lookup hash_api_key r' later (true, true) p).1) (sym same)
                    ∙ lookup-IsFresh hash_api_key plaintext key r' later fresh,
                good,
                refl,
                refl,
                refl,
                refl,
                ground (
                  arith,
                  on,
                  is_expired-is_past (with_tags r'.tag_rows key) later expires_at refl,
                ),
              )
        ]
      ]
