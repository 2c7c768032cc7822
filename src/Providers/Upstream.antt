-- ===== src/Providers/Upstream.antt =====
-- What of the client's payload Chat sends to OpenAI.
use think_pixel_llmgw.Prelude.{String, [], ◌∷◌, ◌⊕◌}
use think_pixel_llmgw.Providers.{OpenAiProvider}
use think_pixel_llmgw.Providers.OpenAi.{HttpRequest}

-- A POST to the base URL's /chat/completions under the provider's API key.
abbrev pub post_of : OpenAiProvider → String → HttpRequest
post_of p body = record {
  method = "POST";
  url = p.base_url ⊕ "/chat/completions";
  headers = ("Content-Type", "application/json") ∷ ("Authorization", "Bearer " ⊕ p.api_key) ∷ [];
  body = body;
}
