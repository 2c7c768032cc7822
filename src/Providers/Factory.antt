-- ===== src/Providers/Factory.antt =====
-- What the factory makes of a row.
use think_pixel_llmgw.Prelude.{
  String, str_eq, eq_iff, false, none, List, ◌≡◌, ◌≢◌, ◌↔◌, ◌⊎◌, refl, sym, ◌∙◌, arith,
}
use think_pixel_llmgw.Registry.{ProviderRow}
use think_pixel_llmgw.Providers.{
  entry_of, text_entry, create_provider, new_openai_provider, new_vertexai_provider,
  new_bedrock_provider,
}

one_text : (s a b : String) → str_eq a b ≡ false → s ≡ a → s ≢ b
one_text s a b differ e e' = ground (arith, differ, (eq_iff a b).1 (sym e ∙ e'))

-- CreateProvider fails exactly for an OpenAI row without an API key among the credentials, a
-- Vertex AI row without a project in its configuration, and a row of another type than those two
-- and Bedrock.
pub create_provider_iff :
    (row : ProviderRow) (cs : List (String × String))
    → (create_provider row cs ≡ none) ↔ (
        ((row.provider_type ≡ "openai") × (entry_of cs "api_key" ≡ ""))
        ⊎ ((row.provider_type ≡ "vertexai") × (text_entry row.config "project_id" ≡ ""))
        ⊎ ((row.provider_type ≢ "openai")
            × (row.provider_type ≢ "vertexai")
            × (row.provider_type ≢ "bedrock")))
unfolding create_provider new_openai_provider new_vertexai_provider new_bedrock_provider
create_provider_iff row cs = ground (
  arith,
  eq_iff row.provider_type "openai",
  eq_iff row.provider_type "vertexai",
  eq_iff row.provider_type "bedrock",
  eq_iff (entry_of cs "api_key") "",
  eq_iff (text_entry row.config "project_id") "",
  one_text row.provider_type "openai" "vertexai" refl,
  one_text row.provider_type "openai" "bedrock" refl,
  one_text row.provider_type "vertexai" "bedrock" refl,
)
