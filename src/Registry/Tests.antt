-- ===== src/Registry/Tests.antt =====
-- The theorems on the registry at a catalogue of two providers.
use think_pixel_llmgw.Prelude.{
  String, str_eq, refl, true, false, Option, none, some, List, [], ◌∷◌, if◌then◌else◌,
}
use think_pixel_llmgw.Registry.{
  ProviderRow, ModelRow, Catalogue, ProviderRegistry, text, load_registry, reload, resolve_model,
  build_providers, instantiate, credentials, decrypt_all, first_matching, matches_lite_llm_provider,
  map_models, map_aliases, map_alias,
}
use think_pixel_llmgw.Registry.Resolution.{Made, resolve_model-Made}

abbrev openai_row : ProviderRow
openai_row = record {
  id = "p1";
  name = "openai";
  display_name = "OpenAI";
  provider_type = "openai";
  config = [];
  encrypted_credentials = ("api_key", text "secret") ∷ [];
  enabled = true;
}

abbrev disabled_row : ProviderRow
disabled_row = record openai_row { id = "p0"; enabled = false }

abbrev gpt : ModelRow
gpt = record { id = "m1"; model_name = "gpt-5"; provider_id = "openai" }

abbrev catalogue : Catalogue
catalogue = record {
  provider_rows = some (disabled_row ∷ openai_row ∷ []);
  alias_rows = some (
      record {
        id = "a1";
        alias = "fast";
        target_model_id = "m1";
        provider_id = none;
        enabled = true;
      }
      ∷ []);
  model_rows = some (gpt ∷ []);
  model_by_id = λ id. if str_eq id "m1" then some gpt else none;
}

-- A provider is its ID.
abbrev create_id : ProviderRow → List (String × String) → Option String
create_id row cs = some row.id

abbrev no_registry : ProviderRegistry String
no_registry = record {
  providers = λ _. none;
  model_to_provider = λ _. none;
  alias_to_provider = λ _. none;
  alias_to_model = λ _. none;
}

abbrev decryption : Option (String → Option String)
decryption = some (λ s. some s)

abbrev or_none : Option (ProviderRegistry String) → ProviderRegistry String
or_none none = no_registry
or_none (some r) = r

abbrev loaded_registry : ProviderRegistry String
loaded_registry = or_none (load_registry decryption create_id catalogue)

resolve_model-Made_example : Made decryption create_id "p1" (disabled_row ∷ openai_row ∷ [])
unfolding load_registry reload resolve_model build_providers instantiate credentials decrypt_all
    first_matching matches_lite_llm_provider map_models map_aliases map_alias
resolve_model-Made_example =
    resolve_model-Made decryption create_id catalogue no_registry loaded_registry
      (disabled_row ∷ openai_row ∷ []) "fast" "gpt-5" "p1" refl refl refl
