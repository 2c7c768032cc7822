-- ===== src/Keys/Handlers.antt =====
-- Create and Update of llm_gateway/internal/httpapi/admin_api_keys_handler.go, behind the decoding of
-- the request. time.Parse is a parameter; `none` is an error.
pub mod Issued
use think_pixel_llmgw.Prelude.{
  ℕ, String, str_eq, Bool, true, false, ◌||◌, Option, none, some, List, [], ◌∷◌, ℤ, pos, negsuc,
  ◌==◌, if◌then◌else◌,
}
use think_pixel_llmgw.Redis.{Link, replied, refused, reply_lost}
use think_pixel_llmgw.Auth.{ApiKey}
use think_pixel_llmgw.Keys.{
  Repository, Found, found, missing, query_failed, Written, written, not_found, write_failed,
  create, update, set_tag, get_by_id, with_key,
}

pub record CreateApiKeyRequest {ℓ} (W : Type ℓ) : Type ℓ where
  pub name : String
  pub allowed_models : List String
  pub rate_limit_per_minute : ℤ
  pub monthly_budget_usd : Option W
  pub enabled : Option Bool
  pub expires_at : Option String
  pub tags : List (String × String)

-- What is nil is `none`; nil tags are no tags.
pub record UpdateApiKeyRequest {ℓ} (W : Type ℓ) : Type ℓ where
  pub name : Option String
  pub allowed_models : Option (List String)
  pub rate_limit_per_minute : Option ℤ
  pub monthly_budget_usd : Option W
  pub enabled : Option Bool
  pub expires_at : Option String
  pub tags : List (String × String)

abbrev pub or_true : Option Bool → Bool
or_true none = true
or_true (some b) = b

abbrev pub or_sixty : ℤ → ℤ
or_sixty (pos n) = if n == 0 then pos 60 else pos n
or_sixty (negsuc n) = negsuc n

abbrev pub field_or {ℓ} : {A : Type ℓ} → A → Option A → A
field_or a none = a
field_or a (some b) = b

abbrev pub either {ℓ} : {A : Type ℓ} → Option A → Option A → Option A
either none b = b
either (some a) b = some a

-- A time that does not parse is `none`; no time is `some none`.
abbrev pub parsed : Option ℕ → Option (Option ℕ)
parsed none = none
parsed (some t) = some (some t)

abbrev pub expiry : (String → Option ℕ) → Option String → Option (Option ℕ)
expiry parse none = some none
expiry parse (some s) = if str_eq s "" then some none else parsed (parse s)

abbrev pub changed_expiry : (String → Option ℕ) → Option ℕ → Option String → Option (Option ℕ)
changed_expiry parse old none = some old
changed_expiry parse old (some s) =
    if str_eq s "" || str_eq s "null" then some none else parsed (parse s)

-- How the next SetTag fares; those that are not listed are replied.
abbrev pub link_of : List Link → Link
link_of [] = replied
link_of (l ∷ ls) = l

abbrev pub links_after : List Link → List Link
links_after [] = []
links_after (l ∷ ls) = ls

-- What Create answers: the status, and with 201 the plaintext key.
pub data Created : Type 0 where
  issued : String → Created
  refused_with : ℕ → Created

abbrev pub insert_failed : Link → ℕ
insert_failed replied = 409
insert_failed refused = 500
insert_failed reply_lost = 500

module _ {ℓ} {W : Type ℓ} where
  -- The loop over the tags of a request; an error of SetTag does not end it. Its read of the hash
  -- for the cache works.
  unfoldable pub set_tags :
      Repository W → List Link → String → List (String × String) → Repository W
  unfolding set_tag
  set_tags r links id [] = r
  set_tags r links id ((key, value) ∷ more) =
      set_tags (set_tag r (link_of links) true id key value).0 (links_after links) id more

  abbrev pub after_insert :
      Link
      → List Link
      → String
      → String
      → List (String × String)
      → Repository W × Written
      → Repository W × Created
  after_insert link links id plaintext tags (r, written) =
      (set_tags r links id tags, issued plaintext)
  after_insert link links id plaintext tags (r, not_found) = (r, refused_with (insert_failed link))
  after_insert link links id plaintext tags (r, write_failed) =
      (r, refused_with (insert_failed link))

  abbrev pub new_key : String → String → ℕ → CreateApiKeyRequest W → Option ℕ → ApiKey W
  new_key id key_hash now req expires_at = record {
    id = id;
    name = req.name;
    key_hash = key_hash;
    allowed_models = req.allowed_models;
    rate_limit_per_minute = or_sixty req.rate_limit_per_minute;
    monthly_budget_usd = req.monthly_budget_usd;
    enabled = or_true req.enabled;
    expires_at = expires_at;
    updated_at = now;
    tags = [];
  }

  abbrev pub insert_key :
      (String → String)
      → Repository W
      → ℕ
      → Link
      → List Link
      → String
      → String
      → CreateApiKeyRequest W
      → Option (Option ℕ)
      → Repository W × Created
  insert_key hash_api_key r now link links id plaintext req none = (r, refused_with 400)
  insert_key hash_api_key r now link links id plaintext req (some expires_at) =
      after_insert link links id plaintext req.tags
        (create r link (new_key id (hash_api_key plaintext) now req expires_at))

  -- `plaintext` is what generateAPIKey draws, and `id` is uuid.New().
  unfoldable pub create_key :
      (String → String)
      → (String → Option ℕ)
      → Repository W
      → ℕ
      → Link
      → List Link
      → String
      → String
      → CreateApiKeyRequest W
      → Repository W × Created
  unfolding set_tags create
  create_key hash_api_key parse r now link links id plaintext req =
      if str_eq req.name ""
      then (r, refused_with 400)
      else insert_key hash_api_key r now link links id plaintext req (expiry parse req.expires_at)

  abbrev pub changed_key : ApiKey W → UpdateApiKeyRequest W → Option ℕ → ApiKey W
  changed_key k req expires_at = record k {
    name = field_or k.name req.name;
    allowed_models = field_or k.allowed_models req.allowed_models;
    rate_limit_per_minute = field_or k.rate_limit_per_minute req.rate_limit_per_minute;
    monthly_budget_usd = either req.monthly_budget_usd k.monthly_budget_usd;
    enabled = field_or k.enabled req.enabled;
    expires_at = expires_at;
  }

  abbrev pub after_update :
      List Link → String → List (String × String) → Repository W × Written → Repository W × ℕ
  after_update links id tags (r, written) = (set_tags r links id tags, 200)
  after_update links id tags (r, not_found) = (r, 500)
  after_update links id tags (r, write_failed) = (r, 500)

  abbrev pub update_parsed :
      Repository W
      → ℕ
      → Link
      → List Link
      → ApiKey W
      → UpdateApiKeyRequest W
      → Option (Option ℕ)
      → Repository W × ℕ
  update_parsed r now link links k req none = (r, 400)
  update_parsed r now link links k req (some expires_at) =
      after_update links k.id req.tags (update r now link (changed_key k req expires_at))

  unfoldable pub update_key :
      (String → Option ℕ)
      → Repository W
      → ℕ
      → Bool × Bool
      → Link
      → List Link
      → String
      → UpdateApiKeyRequest W
      → Repository W × ℕ
  unfolding get_by_id update with_key set_tags
  update_key parse r now works link links id req =
      with_key r (get_by_id r id works) (λ k.
        update_parsed r now link links k req (changed_expiry parse k.expires_at req.expires_at))
