-- ===== src/Keys/Revocation.antt =====
-- What Update does to later lookups: a revoked key no longer authenticates, and a regenerated key
-- does not replace the old one.
use think_pixel_llmgw.Prelude.{
  ℕ, ◌≤◌, String, str_eq, eq_iff, eq_refl, true, false, none, some, List, [], ◌∷◌, ◌≡◌, ◌≢◌, refl,
  sym, ap, ◌∙◌, inl, inr, arith, Bool-cases, subst,
}
use think_pixel_llmgw.Redis.{replied}
use think_pixel_llmgw.Cache
use think_pixel_llmgw.Cache.Capacity.{delete-capacity}
use think_pixel_llmgw.Cache.Invariant.{IsConsistent, delete-IsConsistent}
use think_pixel_llmgw.Cache.Lookup.{get-delete}
use think_pixel_llmgw.Auth.{ApiKey, key_not_found, contains}
use think_pixel_llmgw.Keys.Tables.{select_by_hash, select_by_id, with_tags, update_rows, update_row}
use think_pixel_llmgw.Keys.{
  Repository, get_by_hash, answer_hit, load_by_hash, get_by_id, update, written, is_some, status_of,
  with_key, revoke, regenerate, lookup, as_looked,
}
use think_pixel_llmgw.Keys.Lookup.{loaded, as_found, IsCoherent, get_by_hash_lem}

module _ {ℓ} {W : Type ℓ} where
  -- The rows of an ID have the hash `h`, and the other way round.
  abbrev pub HashOf : List (ApiKey W) → String → String → Type 0
  HashOf [] id h = Unit
  HashOf (k ∷ ks) id h =
      ((k.id ≡ id → k.key_hash ≡ h) × (k.key_hash ≡ h → k.id ≡ id)) × HashOf ks id h

  select_by_hash-update_other :
      (now : ℕ) (key : ApiKey W) (ks : List (ApiKey W)) (h j : String)
      → HashOf ks key.id h
      → h ≢ j
      → select_by_hash (update_rows now key ks) j ≡ select_by_hash ks j
  unfolding update_rows update_row select_by_hash
  select_by_hash-update_other now key [] h j own other = refl
  select_by_hash-update_other now key (k ∷ ks) h j own other =
      elim (Bool-cases (str_eq k.id key.id)) [
        | inl same ↦
            let away : str_eq k.key_hash j ≡ false =
              ground (arith, own, other, same, eq_iff k.id key.id, eq_iff k.key_hash j) in
            rw (same, away) (select_by_hash-update_other now key ks h j own.1 other)
        | inr differs ↦ rw (differs, select_by_hash-update_other now key ks h j own.1 other) refl
      ]

  select_by_hash-disabled :
      (now : ℕ) (key : ApiKey W) (ks : List (ApiKey W)) (h : String)
      → HashOf ks key.id h
      → key.enabled ≡ false
      → select_by_hash (update_rows now key ks) h ≡ none
  unfolding update_rows update_row select_by_hash
  select_by_hash-disabled now key [] h own disabled = refl
  select_by_hash-disabled now key (k ∷ ks) h own disabled = elim (Bool-cases (str_eq k.id key.id)) [
    | inl same ↦
        rw (same, disabled) (ground (arith, select_by_hash-disabled now key ks h own.1 disabled))
    | inr differs ↦ rw differs (
        ground (
          arith,
          select_by_hash-disabled now key ks h own.1 disabled,
          eq_iff k.id key.id,
          eq_iff k.key_hash h,
        ))
  ]

  select_by_id-id :
      (ks : List (ApiKey W)) (id : String) (k : ApiKey W) → select_by_id ks id ≡ some k → k.id ≡ id
  unfolding select_by_id
  select_by_id-id [] id k at = ground arith
  select_by_id-id (x ∷ ks) id k at = elim (Bool-cases (str_eq x.id id)) [
    | inl same ↦
        let here : x ≡ k = ground (arith, at, same) in
        subst (λ y. y.id ≡ id) here (ground (arith, same, eq_iff x.id id))
    | inr differs ↦ select_by_id-id ks id k (ground (arith, at, differs))
  ]

  -- The repository after an Update that reached the key's row.
  abbrev updated : ℕ → Repository W → ApiKey W → Repository W
  updated now r key = record r {
    rows = update_rows now key r.rows;
    cache = Cache.delete r.cache key.key_hash;
  }

  updated-agrees :
      (t now : ℕ) (r : Repository W) (key : ApiKey W) (later : ℕ) (j : String) (k : ApiKey W)
      → HashOf r.rows key.id key.key_hash
      → IsCoherent t r
      → t ≤ later
      → (Cache.get (updated now r key).cache later j).1 ≡ some k
      → loaded (updated now r key) j ≡ some k
  updated-agrees t now r key later j k own coherent at hit =
      let answered = sym (get-delete r.cache later key.key_hash j coherent.consistent) ∙ hit in
      let other : key.key_hash ≢ j = ground (arith, answered, eq_iff key.key_hash j) in
      let before : (Cache.get r.cache later j).1 ≡ some k =
        ground (arith, answered, eq_iff key.key_hash j) in
      let same = select_by_hash-update_other now key r.rows key.key_hash j own other in
      ground (arith, coherent.agrees later j k at before, same)

  updated-IsCoherent :
      (t now : ℕ) (r : Repository W) (key : ApiKey W)
      → HashOf r.rows key.id key.key_hash
      → IsCoherent t r
      → IsCoherent t (updated now r key)
  updated-IsCoherent t now r key own coherent = record {
    consistent = delete-IsConsistent r.cache key.key_hash coherent.consistent;
    room = rw (delete-capacity r.cache key.key_hash) coherent.room;
    agrees = λ later j k at hit. updated-agrees t now r key later j k own coherent at hit;
  }

  -- Where the reply of the UPDATE comes, and the rows of the key's ID are those of its hash,
  -- Update keeps a coherent repository coherent.
  pub update-IsCoherent :
      (t now : ℕ) (r : Repository W) (key : ApiKey W)
      → HashOf r.rows key.id key.key_hash
      → IsCoherent t r
      → IsCoherent t (update r now replied key).0
  unfolding update
  update-IsCoherent t now r key own coherent =
      elim (Bool-cases (is_some (select_by_id r.rows key.id))) [
        | inr absent ↦ rw absent coherent
        | inl there ↦ rw there (updated-IsCoherent t now r key own coherent)
      ]

  update-there :
      (now : ℕ) (r : Repository W) (key k : ApiKey W)
      → select_by_id r.rows key.id ≡ some k
      → update r now replied key ≡ (updated now r key, written)
  unfolding update
  update-there now r key k there = rw there refl

  -- What the handlers write is the key as it was read, with one field set.
  with_key-update :
      (now : ℕ) (r : Repository W) (id : String) (k : ApiKey W) (edit : ApiKey W → ApiKey W)
      → select_by_id r.rows id ≡ some k
      → (edit (with_tags r.tag_rows k)).id ≡ id
      → with_key r
          (get_by_id r id (true, true))
          (λ k'. ((update r now replied (edit k')).0, status_of (update r now replied (edit k')).1))
        ≡ (updated now r (edit (with_tags r.tag_rows k)), 200)
  unfolding with_key get_by_id
  with_key-update now r id k edit there same =
      let key = edit (with_tags r.tag_rows k) in
      let at : select_by_id r.rows key.id ≡ some k = ap (select_by_id r.rows) same ∙ there in
      rw there (rw (update-there now r key k at) refl)

  lookup_lem :
      (hash_password : String → String) (t later : ℕ) (r : Repository W) (plaintext_key : String)
      → t ≤ later
      → IsCoherent t r
      → loaded r (hash_password plaintext_key) ≡ none
      → (lookup hash_password r later (true, true) plaintext_key).1 ≡ key_not_found
  unfolding lookup as_looked
  lookup_lem hash_password t later r plaintext_key le coherent absent =
      ap (λ f. as_looked f later)
        (get_by_hash_lem t later r (hash_password plaintext_key) le coherent ∙ ap as_found absent)

  -- Where a repository is coherent, the queries work, and the rows of a key's ID are those of its
  -- hash, the handler Delete answers 200, and afterwards a lookup of the key finds nothing,
  -- even if the key was cached.
  pub revoke_lem :
      (hash_password : String → String) (t now later : ℕ) (r : Repository W)
      (id plaintext_key : String) (k : ApiKey W)
      → t ≤ later
      → IsCoherent t r
      → select_by_id r.rows id ≡ some k
      → HashOf r.rows k.id k.key_hash
      → hash_password plaintext_key ≡ k.key_hash
      → ((revoke r now (true, true) replied id).1 ≡ 200)
        × ((lookup hash_password
              (revoke r now (true, true) replied id).0
              later
              (true, true)
              plaintext_key).1
            ≡ key_not_found)
  unfolding revoke
  revoke_lem hash_password t now later r id plaintext_key k le coherent there own hashed =
      let edit = λ (key : ApiKey W). record key { enabled = false } in
      let key = edit (with_tags r.tag_rows k) in
      let done = with_key-update now r id k edit there (select_by_id-id r.rows id k there) in
      let next = updated-IsCoherent t now r key own coherent in
      let gone = select_by_hash-disabled now key r.rows k.key_hash own refl in
      (
        ap (λ p. p.1) done,
        ap (λ p. (lookup hash_password p.0 later (true, true) plaintext_key).1) done
            ∙ lookup_lem hash_password t later (updated now r key) plaintext_key le next
                (rw hashed (ground (arith, gone))),
      )

  abbrev pub hashes : List (ApiKey W) → List String
  hashes [] = []
  hashes (k ∷ ks) = k.key_hash ∷ hashes ks

  hashes-update_rows :
      (now : ℕ) (key : ApiKey W) (ks : List (ApiKey W))
      → hashes (update_rows now key ks) ≡ hashes ks
  unfolding update_rows update_row
  hashes-update_rows now key [] = refl
  hashes-update_rows now key (k ∷ ks) = elim (Bool-cases (str_eq k.id key.id)) [
    | inl same ↦ rw same (ap (λ hs. k.key_hash ∷ hs) (hashes-update_rows now key ks))
    | inr differs ↦ rw differs (ap (λ hs. k.key_hash ∷ hs) (hashes-update_rows now key ks))
  ]

  select_by_hash-none :
      (ks : List (ApiKey W)) (h : String)
      → contains (hashes ks) h ≡ false
      → select_by_hash ks h ≡ none
  unfolding select_by_hash contains
  select_by_hash-none [] h away = refl
  select_by_hash-none (k ∷ ks) h away = ground (arith, select_by_hash-none ks h)

  lookup-absent :
      (hash_password : String → String) (now : ℕ) (r : Repository W) (plaintext_key : String)
      → (Cache.get r.cache now (hash_password plaintext_key)).1 ≡ none
      → select_by_hash r.rows (hash_password plaintext_key) ≡ none
      → (lookup hash_password r now (true, true) plaintext_key).1 ≡ key_not_found
  unfolding lookup as_looked get_by_hash answer_hit load_by_hash
  lookup-absent hash_password now r plaintext_key miss absent = rw (miss, absent) refl

  -- Where the cache is consistent, the queries work, the key exists, and no row has the hash of the
  -- new key, the handler Regenerate answers 200 and leaves the hash of every row as it was, and
  -- afterwards a lookup of the new key finds nothing.
  pub regenerate_keeps_hashes :
      (hash_password : String → String) (now later : ℕ) (r : Repository W) (id new_key : String)
      (k : ApiKey W)
      → IsConsistent r.cache
      → select_by_id r.rows id ≡ some k
      → contains (hashes r.rows) (hash_password new_key) ≡ false
      → ((regenerate hash_password r now (true, true) replied id new_key).1 ≡ 200)
        × (hashes (regenerate hash_password r now (true, true) replied id new_key).0.rows
            ≡ hashes r.rows)
        × ((lookup hash_password
              (regenerate hash_password r now (true, true) replied id new_key).0
              later
              (true, true)
              new_key).1
            ≡ key_not_found)
  unfolding regenerate
  regenerate_keeps_hashes hash_password now later r id new_key k consistent there away =
      let edit = λ (key : ApiKey W). record key { key_hash = hash_password new_key } in
      let key = edit (with_tags r.tag_rows k) in
      let h = hash_password new_key in
      let done = with_key-update now r id k edit there (select_by_id-id r.rows id k there) in
      let same = hashes-update_rows now key r.rows in
      let dropped : (Cache.get (Cache.delete r.cache h) later h).1 ≡ none =
        get-delete r.cache later h h consistent ∙ ground (arith, eq_refl h) in
      let absent =
        select_by_hash-none (update_rows now key r.rows) h (ap (λ hs. contains hs h) same ∙ away) in
      (
        ap (λ p. p.1) done,
        ap (λ p. hashes p.0.rows) done ∙ same,
        ap (λ p. (lookup hash_password p.0 later (true, true) new_key).1) done
            ∙ lookup-absent hash_password later (updated now r key) new_key dropped absent,
      )
