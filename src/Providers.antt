-- ===== src/Providers.antt =====
-- The providers that a row can be made into: the factory of llm_gateway/internal/providers/factory.go
-- and the constructors of openai.go, vertexai.go and bedrock.go beside it. Chat and the streams of
-- OpenAI are in Providers/OpenAi; the other two are stubs in the source.
pub mod Factory
pub mod OpenAi
pub mod Stream
pub mod Upstream
mod Tests
use think_pixel_llmgw.Prelude.{
  String, str_eq, Bool, true, false, not, Option, none, some, List, [], ◌∷◌, if◌then◌else◌,
}
use think_pixel_llmgw.Registry.{ProviderRow, Credential, text, other}

pub record OpenAiProvider : Type 0 where
  pub id : String
  pub name : String
  pub api_key : String
  pub base_url : String

pub record VertexAiProvider : Type 0 where
  pub id : String
  pub name : String
  pub project_id : String
  pub location : String

pub record BedrockProvider : Type 0 where
  pub id : String
  pub name : String
  pub region : String

pub data Provider : Type 0 where
  openai_provider : OpenAiProvider → Provider
  vertexai_provider : VertexAiProvider → Provider
  bedrock_provider : BedrockProvider → Provider

-- `m[key]` of a map of texts, which is the empty text for a missing key.
unfoldable pub entry_of : List (String × String) → String → String
entry_of [] key = ""
entry_of ((k, v) ∷ more) key = if str_eq k key then v else entry_of more key

-- `m[key].(string)`, or the empty text where it is not a text.
unfoldable pub text_entry : List (String × Credential) → String → String
text_entry [] key = ""
text_entry ((k, text v) ∷ more) key = if str_eq k key then v else text_entry more key
text_entry ((k, other) ∷ more) key = if str_eq k key then "" else text_entry more key

abbrev pub or_default : String → String → String
or_default value fallback = if str_eq value "" then fallback else value

abbrev pub default_base_url : String
default_base_url = "https://api.openai.com/v1"

unfoldable pub new_openai_provider : ProviderRow → List (String × String) → Option Provider
unfolding entry_of text_entry
new_openai_provider row cs =
    let api_key = entry_of cs "api_key" in
    if str_eq api_key ""
    then none
    else some (
        openai_provider (record {
          id = row.id;
          name = row.display_name;
          api_key = api_key;
          base_url = or_default (text_entry row.config "base_url") default_base_url;
        }))

unfoldable pub new_vertexai_provider : ProviderRow → List (String × String) → Option Provider
unfolding text_entry
new_vertexai_provider row cs =
    let project_id = text_entry row.config "project_id" in
    if str_eq project_id ""
    then none
    else some (
        vertexai_provider (record {
          id = row.id;
          name = row.display_name;
          project_id = project_id;
          location = or_default (text_entry row.config "location") "us-central1";
        }))

unfoldable pub new_bedrock_provider : ProviderRow → List (String × String) → Option Provider
unfolding text_entry
new_bedrock_provider row cs = some (
    bedrock_provider (record {
      id = row.id;
      name = row.display_name;
      region = or_default (text_entry row.config "region") "us-east-1";
    }))

-- CreateProvider of a factory with the built-in creators.
unfoldable pub create_provider : ProviderRow → List (String × String) → Option Provider
unfolding new_openai_provider new_vertexai_provider new_bedrock_provider
create_provider row cs =
    if str_eq row.provider_type "openai"
    then new_openai_provider row cs
    else if str_eq row.provider_type "vertexai"
    then new_vertexai_provider row cs
    else if str_eq row.provider_type "bedrock"
    then new_bedrock_provider row cs
    else none

-- The provider's ID.
unfoldable pub provider_id : Provider → String
provider_id (openai_provider p) = p.id
provider_id (vertexai_provider p) = p.id
provider_id (bedrock_provider p) = p.id
