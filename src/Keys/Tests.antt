-- ===== src/Keys/Tests.antt =====
-- The theorems on stored keys at a table of two keys.
use think_pixel_llmgw.Prelude.{
  ℕ, String, ◌≡◌, refl, true, false, none, some, List, [], ◌∷◌, pos, arith, ◌⊕◌, str_eq, eq_iff,
}
use think_pixel_llmgw.Redis.{replied}
use think_pixel_llmgw.Cache.{new_lru_cache}
use think_pixel_llmgw.Cache.Cleanup.{new_lru_cache-IsConsistent}
use think_pixel_llmgw.Auth.{ApiKey, key_not_found, contains}
use think_pixel_llmgw.Keys.Tables.{select_by_hash, select_by_id, load_tags}
use think_pixel_llmgw.Keys.{Repository, get_by_hash, revoke, regenerate, lookup}
use think_pixel_llmgw.Auth.{ApiKeyRecord, looked_up}
use think_pixel_llmgw.Keys.{create, set_tag}
use think_pixel_llmgw.Keys.Tables.{violates}
use think_pixel_llmgw.Prelude.{Option}
use think_pixel_llmgw.Keys.Handlers.{CreateApiKeyRequest, create_key, set_tags, issued}
use think_pixel_llmgw.Keys.Handlers.Issued.{create_key-authenticates, is_past}
use think_pixel_llmgw.Keys.Lookup.{
  IsCoherent, as_found, new_repository-IsCoherent, get_by_hash_lem, get_by_hash-IsCoherent,
}
use think_pixel_llmgw.Keys.Revocation.{revoke_lem, hashes, regenerate_keeps_hashes}

abbrev stored_key : String → String → ApiKey ℕ
stored_key id key_hash = record {
  id = id;
  name = id;
  key_hash = key_hash;
  allowed_models = [];
  rate_limit_per_minute = pos 60;
  monthly_budget_usd = none;
  enabled = true;
  expires_at = none;
  updated_at = 0;
  tags = [];
}

abbrev key_rows : List (ApiKey ℕ)
key_rows = stored_key "1" "#one" ∷ stored_key "2" "#two" ∷ []

abbrev hash : String → String
hash s = "#" ⊕ s

apart : {A : Type 0} (s t : String) → str_eq s t ≡ false → s ≡ t → A
apart s t differ h = ground (arith, h, differ, eq_iff s t)

abbrev repository : Repository ℕ
repository = record { rows = key_rows; tag_rows = []; cache = new_lru_cache 2 10 }

repository-IsCoherent : IsCoherent 0 repository
repository-IsCoherent = new_repository-IsCoherent key_rows [] 2 10 (omega arith)

-- The repository with the key of "one" in its cache.
abbrev cached_repository : Repository ℕ
cached_repository = (get_by_hash repository 3 "#one" (true, true)).0

get_by_hash-IsCoherent_example : IsCoherent 3 cached_repository
get_by_hash-IsCoherent_example =
    get_by_hash-IsCoherent 0 3 repository "#one" (true, true) (omega arith) repository-IsCoherent

get_by_hash_example :
    (get_by_hash repository 5 "#two" (true, true)).1 ≡ as_found (some (stored_key "2" "#two"))
unfolding select_by_hash load_tags
get_by_hash_example = get_by_hash_lem 0 5 repository "#two" (omega arith) repository-IsCoherent

revoke_example :
    ((revoke repository 4 (true, true) replied "1").1 ≡ 200)
    × ((lookup hash (revoke repository 4 (true, true) replied "1").0 5 (true, true) "one").1
        ≡ key_not_found)
unfolding select_by_id
revoke_example =
    revoke_lem hash 0 4 5 repository "1" "one" (stored_key "1" "#one") (omega arith)
      repository-IsCoherent refl
      ((λ _. refl, λ _. refl), ((λ h. apart "2" "1" refl h, λ h. apart "#two" "#one" refl h), tt))
      refl

regenerate_keeps_hashes_example :
    ((regenerate hash repository 4 (true, true) replied "1" "new").1 ≡ 200)
    × (hashes (regenerate hash repository 4 (true, true) replied "1" "new").0.rows
        ≡ "#one" ∷ "#two" ∷ [])
    × ((lookup hash
          (regenerate hash repository 4 (true, true) replied "1" "new").0
          5
          (true, true)
          "new").1
        ≡ key_not_found)
unfolding select_by_id contains
regenerate_keeps_hashes_example =
    regenerate_keeps_hashes hash 4 5 repository "1" "new" (stored_key "1" "#one")
      (new_lru_cache-IsConsistent 2 10) refl refl

abbrev new_request : CreateApiKeyRequest ℕ
new_request = record {
  name = "app";
  allowed_models = "gpt-5" ∷ [];
  rate_limit_per_minute = pos 0;
  monthly_budget_usd = none;
  enabled = none;
  expires_at = none;
  tags = ("env", "dev") ∷ [];
}

abbrev no_time : String → Option ℕ
no_time s = none

abbrev created_repository : Repository ℕ
created_repository = (create_key hash no_time repository 3 replied [] "3" "three" new_request).0

created_test :
    create_key hash no_time repository 3 replied [] "3" "three" new_request
    ≡ (created_repository, issued "three")
unfolding create_key create violates set_tags set_tag
created_test = refl

create_key-authenticates_example :
    (k : ApiKeyRecord) × (expires_at : Option ℕ) × ((lookup hash created_repository 5
        (true, true)
        "three").1
      ≡ looked_up k)
    × (some none ≡ some expires_at)
    × (k.id ≡ "3")
    × (k.name ≡ "app")
    × (k.allowed_models ≡ "gpt-5" ∷ [])
    × (k.tags ≡ load_tags created_repository.tag_rows "3")
    × (k.revoked ≡ is_past 5 expires_at)
create_key-authenticates_example =
    create_key-authenticates hash no_time repository created_repository 3 5 replied [] "3" "three"
      "three" new_request (new_lru_cache-IsConsistent 2 10) refl created_test
