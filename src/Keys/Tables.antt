-- ===== src/Keys/Tables.antt =====
-- The tables api_keys and api_key_tags as lists of rows, and the SQL statements of
-- llm_gateway/internal/storage/api_key_repository.go as operations on them.
use think_pixel_llmgw.Prelude.{
  ℕ, String, str_eq, Bool, true, false, ◌&&◌, ◌||◌, Option, none, some, List, [], ◌∷◌,
  if◌then◌else◌,
}
use think_pixel_llmgw.Auth.{ApiKey}

-- A row of api_key_tags.
pub record TagRow : Type 0 where
  pub api_key_id : String
  pub key : String
  pub value : String

-- The tags of a key: a map, so a later row of the same tag would replace an earlier one.
unfoldable pub load_tags : List TagRow → String → List (String × String)
load_tags [] id = []
load_tags (t ∷ ts) id =
    let rest = load_tags ts id in if str_eq t.api_key_id id then (t.key, t.value) ∷ rest else rest

-- INSERT INTO api_key_tags ... ON CONFLICT (api_key_id, key) DO UPDATE SET value
unfoldable pub upsert_tag : List TagRow → String → String → String → List TagRow
upsert_tag [] id key value = record { api_key_id = id; key = key; value = value } ∷ []
upsert_tag (t ∷ ts) id key value =
    let rest = upsert_tag ts id key value in
    if str_eq t.api_key_id id && str_eq t.key key then record t { value = value } ∷ ts else t ∷ rest

-- DELETE FROM api_key_tags WHERE api_key_id = $1 AND key = $2
unfoldable pub remove_tag : List TagRow → String → String → List TagRow
remove_tag [] id key = []
remove_tag (t ∷ ts) id key =
    let rest = remove_tag ts id key in
    if str_eq t.api_key_id id && str_eq t.key key then rest else t ∷ rest

unfoldable pub delete_tags : String → List TagRow → List TagRow
delete_tags id [] = []
delete_tags id (t ∷ ts) =
    let rest = delete_tags id ts in if str_eq t.api_key_id id then rest else t ∷ rest

module _ {ℓ} {W : Type ℓ} where
  -- WHERE key_hash = $1 AND enabled = true
  unfoldable pub select_by_hash : List (ApiKey W) → String → Option (ApiKey W)
  select_by_hash [] h = none
  select_by_hash (k ∷ ks) h =
      if str_eq k.key_hash h && k.enabled then some k else select_by_hash ks h

  -- WHERE id = $1
  unfoldable pub select_by_id : List (ApiKey W) → String → Option (ApiKey W)
  select_by_id [] id = none
  select_by_id (k ∷ ks) id = if str_eq k.id id then some k else select_by_id ks id

  abbrev pub with_tags : List TagRow → ApiKey W → ApiKey W
  with_tags ts k = record k { tags = load_tags ts k.id }

  -- The table's PRIMARY KEY and UNIQUE constraints.
  unfoldable pub violates : List (ApiKey W) → ApiKey W → Bool
  violates [] key = false
  violates (k ∷ ks) key =
      if str_eq k.id key.id || str_eq k.key_hash key.key_hash then true else violates ks key

  -- UPDATE api_keys SET name, allowed_models, rate_limit_per_minute, monthly_budget_usd, enabled,
  -- expires_at WHERE id = $1; a trigger sets updated_at.
  unfoldable pub update_row : ℕ → ApiKey W → ApiKey W → ApiKey W
  update_row now key k =
      if str_eq k.id key.id
      then record k {
        name = key.name;
        allowed_models = key.allowed_models;
        rate_limit_per_minute = key.rate_limit_per_minute;
        monthly_budget_usd = key.monthly_budget_usd;
        enabled = key.enabled;
        expires_at = key.expires_at;
        updated_at = now;
      }
      else k

  unfoldable pub update_rows : ℕ → ApiKey W → List (ApiKey W) → List (ApiKey W)
  unfolding update_row
  update_rows now key [] = []
  update_rows now key (k ∷ ks) = update_row now key k ∷ update_rows now key ks

  -- DELETE FROM api_keys WHERE id = $1; the rows of the tags go with it.
  unfoldable pub delete_rows : String → List (ApiKey W) → List (ApiKey W)
  delete_rows id [] = []
  delete_rows id (k ∷ ks) =
      let rest = delete_rows id ks in if str_eq k.id id then rest else k ∷ rest
