-- ===== src/Admin/Tests.antt =====
-- The theorems on the admin handlers at small tables.
use package.text.Mathlib.TextBridge.{of_list, to_list}
use think_pixel_llmgw.Prelude.{
  ℕ, String, str_eq, true, false, Option, none, some, List, [], ◌∷◌, ◌++◌, ◌≡◌, refl, sym, ap,
  arith, not, Bool-cases, inl, inr,
}
use think_pixel_llmgw.Redis.{replied}
use think_pixel_llmgw.Encryption.{Bytes, encrypt, decrypt}
use think_pixel_llmgw.Encryption.Plain.{plain_aead, plain_base64, twelve, encryption}
use think_pixel_llmgw.Auth.{has_role, contains}
use think_pixel_llmgw.Registry.{
  ProviderRow, AliasRow, ModelRow, ProviderRegistry, Credential, text, credentials, load_registry,
  reload, build_providers, map_models, map_aliases, first_matching,
}
use think_pixel_llmgw.Rows.{any_row, select_first, select_by_id, update_row}
use think_pixel_llmgw.Providers.{Provider, create_provider, entry_of}
use think_pixel_llmgw.Admin.{State, reload_registry, catalogue_of}
use think_pixel_llmgw.Admin.Providers.{
  CreateProviderRequest, ProviderDetail, create, encrypt_all, create_row, get_provider, get_by_id,
  delete_provider, update, is_provider_type,
}
use think_pixel_llmgw.Admin.Aliases
use think_pixel_llmgw.Keys.Tables.{upsert_tag}
use think_pixel_llmgw.Admin.Aliases.{CreateAliasRequest, parsed_id}
use think_pixel_llmgw.Admin.Aliases.Targets.{create-unmatched, is_provider_name}
use think_pixel_llmgw.Admin.Providers.Credentials.{texts, create-IsStored}
use think_pixel_llmgw.Admin.Providers.Disabled.{delete_provider-none, create-frozen}

abbrev no_registry : ProviderRegistry Provider
no_registry = record {
  providers = λ _. none;
  model_to_provider = λ _. none;
  alias_to_provider = λ _. none;
  alias_to_model = λ _. none;
}

abbrev empty_state : State
empty_state = record {
  provider_rows = [];
  alias_rows = [];
  alias_tags = [];
  model_rows = [];
  registry = no_registry;
}

abbrev nonces : ℕ → Option Bytes
nonces n = some twelve

abbrev openai_request : CreateProviderRequest
openai_request = record {
  name = "openai";
  display_name = "OpenAI";
  type = "openai";
  credentials = ("api_key", text "sk-1") ∷ [];
  config = [];
  enabled = true;
}

abbrev keyless_request : CreateProviderRequest
keyless_request = record openai_request { credentials = [] }

abbrev row_of : CreateProviderRequest → List (String × Credential) → ProviderRow
row_of req cs = record {
  id = "p1";
  name = "openai";
  display_name = "OpenAI";
  provider_type = "openai";
  config = [];
  encrypted_credentials = cs;
  enabled = true;
}

abbrev sealed : List (String × Credential)
sealed = ("api_key", text (of_list (twelve ++ to_list "sk-1"))) ∷ []

abbrev keyless_state : State
keyless_state = record empty_state { provider_rows = row_of keyless_request [] ∷ [] }

-- The state after a Create that could not read the tables for its reload.
abbrev stored_state : State
stored_state = record empty_state { provider_rows = row_of openai_request sealed ∷ [] }

create_test :
    create plain_base64 plain_aead encryption empty_state replied false nonces "p1"
      (some openai_request)
    ≡ (stored_state, 201)
unfolding create encrypt_all encrypt create_row any_row reload_registry reload load_registry
create_test = refl

keyless_test :
    create plain_base64 plain_aead encryption empty_state replied false nonces "p1"
      (some keyless_request)
    ≡ (keyless_state, 201)
unfolding create encrypt_all create_row any_row reload_registry reload load_registry
keyless_test = refl

no_api_key_test : entry_of (texts keyless_request.credentials) "api_key" ≡ ""
unfolding entry_of
no_api_key_test = refl

abbrev keyless_created : State × ℕ
keyless_created =
    create plain_base64 plain_aead encryption empty_state replied false nonces "p1"
      (some keyless_request)

create-frozen_example :
    (keyless_created.1 ≡ 201)
    × (keyless_created.0.registry ≡ no_registry)
    × ((reload_registry plain_base64 plain_aead encryption true keyless_state).registry
        ≡ no_registry)
unfolding create encrypt_all create_row any_row reload_registry reload load_registry
create-frozen_example =
    create-frozen plain_base64 plain_aead encryption empty_state keyless_state false true nonces
      "p1" keyless_request [] refl refl no_api_key_test refl refl refl refl

role_test : has_role (some ("admin" ∷ [])) "admin" ≡ true
unfolding has_role contains
role_test = refl

create-IsStored_example :
    (row : ProviderRow) × (select_by_id (λ r. r.id) "p1" (row_of openai_request sealed ∷ [])
      ≡ some row)
    × ((row.provider_type ≡ "openai") × (row.enabled ≡ true) × (row.config ≡ []))
    × (credentials (some (decrypt plain_base64 plain_aead encryption)) row.encrypted_credentials
        ≡ some (("api_key", "sk-1") ∷ []))
    × (detail : ProviderDetail) × (get_provider plain_base64 plain_aead encryption stored_state true
          ("admin" ∷ [])
          "p1"
        ≡ some detail)
    × (detail.credentials ≡ some (("api_key", "sk-1") ∷ []))
create-IsStored_example =
    create-IsStored plain_base64 plain_aead encryption empty_state stored_state replied false nonces
      "p1" openai_request ("admin" ∷ []) create_test role_test

abbrev disabled_state : State
disabled_state = record empty_state {
  provider_rows = record (row_of openai_request sealed) { enabled = false } ∷ [];
}

delete_test :
    delete_provider plain_base64 plain_aead encryption stored_state true replied true "p1"
    ≡ (disabled_state, 200)
unfolding delete_provider get_by_id select_by_id select_first update any_row update_row
    reload_registry reload load_registry build_providers map_models map_aliases
delete_test = refl

load_test :
    load_registry
      (some (decrypt plain_base64 plain_aead encryption))
      create_provider
      (catalogue_of true disabled_state)
    ≡ some no_registry
unfolding load_registry build_providers map_models map_aliases
load_test = refl

delete_provider-none_example : disabled_state.registry.providers "p1" ≡ none
delete_provider-none_example =
    delete_provider-none plain_base64 plain_aead encryption stored_state disabled_state true replied
      "p1" no_registry delete_test load_test

abbrev model_row : ModelRow
model_row = record { id = "m1"; model_name = "gpt-5"; provider_id = "p1" }

abbrev model_state : State
model_state = record stored_state { model_rows = model_row ∷ [] }

abbrev alias_request : CreateAliasRequest
alias_request = record {
  alias_name = "fast";
  target_model_id = parsed_id "m1";
  provider_id = parsed_id "p1";
  enabled = none;
  tags = ("tier", "gold") ∷ [];
}

abbrev alias_row : AliasRow
alias_row = record {
  id = "a1";
  alias = "fast";
  target_model_id = "m1";
  provider_id = some "p1";
  enabled = true;
}

abbrev alias_state : State
alias_state = record model_state {
  alias_rows = alias_row ∷ [];
  alias_tags = record { api_key_id = "a1"; key = "tier"; value = "gold" } ∷ [];
}

alias_test : Aliases.create model_state replied [] "a1" alias_request ≡ (alias_state, 201)
unfolding Aliases.create Aliases.create_row Aliases.set_tags Aliases.set_tag upsert_tag select_by_id
    select_first any_row
alias_test = refl

known_test : any_row (λ r. not (is_provider_type r.provider_type)) model_state.provider_rows ≡ false
unfolding any_row
known_test = refl

named_test :
    (i : String) (p : ProviderRow)
    → select_by_id (λ r. r.id) i model_state.provider_rows ≡ some p
    → is_provider_name p.id ≡ false
unfolding select_by_id select_first
named_test i p at = elim (Bool-cases (str_eq "p1" i)) [
  | inl here ↦
      let same : row_of openai_request sealed ≡ p = ground (arith, here, at) in
      ap (λ (r : ProviderRow). is_provider_name r.id) (sym same)
  | inr gone ↦ ground (arith, gone, at)
]

create-unmatched_example :
    (t : String) × (model : ModelRow) × (parsed_id "m1" ≡ parsed_id t)
    × (select_by_id (λ m. m.id) t (model_row ∷ []) ≡ some model)
    × (first_matching model_state.provider_rows model.provider_id ≡ none)
create-unmatched_example =
    create-unmatched model_state alias_state replied [] "a1" alias_request alias_test known_test
      named_test
