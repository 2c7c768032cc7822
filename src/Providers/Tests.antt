-- ===== src/Providers/Tests.antt =====
-- The theorems on the providers at concrete rows, payloads and streams.
use think_pixel_llmgw.Prelude.{
  ℕ, String, true, false, List, [], ◌∷◌, ◌≡◌, refl, arith, Option, none, some,
}
use think_pixel_llmgw.Registry.{ProviderRow, text}
use think_pixel_llmgw.Proxy.{forward}
use think_pixel_llmgw.Providers.{OpenAiProvider}
use think_pixel_llmgw.Providers.OpenAi.{
  Value, null, Payload, upstream_payload, value_at, is_null, HttpRequest, HttpResponse,
}
use think_pixel_llmgw.Providers.OpenAi
use think_pixel_llmgw.Providers.Stream.{reads, forward-reads}

abbrev vertex_row : ProviderRow
vertex_row = record {
  id = "p2";
  name = "vertex";
  display_name = "Vertex";
  provider_type = "vertexai";
  config = ("region", text "eu") ∷ [];
  encrypted_credentials = [];
  enabled = true;
}

abbrev aliased : Payload ℕ
aliased = ("model", OpenAi.text "fast") ∷ ("stream", OpenAi.flag true) ∷ []

abbrev openai : OpenAiProvider
openai = record {
  id = "p1";
  name = "openai";
  api_key = "sk-1";
  base_url = "https://api.openai.com/v1";
}

-- A JSON of the model alone, which depends on the entries.
abbrev model_json : Value ℕ → Option String
model_json null = none
model_json (OpenAi.text s) = some s
model_json (OpenAi.flag b) = none
model_json (OpenAi.other n) = none

abbrev answering : HttpRequest → Option HttpResponse
answering r = some (record { status_code = 200; body = some r.body })

alias_test : value_at (upstream_payload aliased "gpt-5") "model" ≡ OpenAi.text "fast"
unfolding upstream_payload value_at
alias_test = refl

abbrev lines : List String
lines = "data: {}" ∷ "" ∷ ": ping" ∷ "data: []" ∷ "data: [DONE]" ∷ "data: late" ∷ []

forward-reads_example : forward (reads 7 false lines) ≡ 2
forward-reads_example = forward-reads 7 false lines (omega arith)
