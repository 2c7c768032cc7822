-- ===== src/Proxy/Tests.antt =====
-- The theorems on the chat handler at concrete requests, in whole micro-units.
use think_pixel_llmgw.Prelude.{
  ℕ, String, str_eq, ◌≡◌, refl, Bool, true, false, Option, none, some, List, [], ◌∷◌, ℤ, pos,
  whole_float, if◌then◌else◌,
}
use think_pixel_llmgw.Auth.{ApiKeyRecord, allows_model, contains}
use think_pixel_llmgw.RateLimit.{Details, answer}
use think_pixel_llmgw.Pricing.{
  PricingComponent, find_pricing_component, direction_input, modality_text, unit_token,
}
use think_pixel_llmgw.Proxy.{
  Payload, ChatCall, ChatResponse, StreamRead, Workers, respond, handle_chat,
}
use think_pixel_llmgw.Proxy.Admission.{provider_calls, handle_chat-provider_calls}
use think_pixel_llmgw.Proxy.Accounting.{bills, respond-bills-per_1k}

abbrev key_record : ApiKeyRecord
key_record = record {
  id = "k";
  name = "Key";
  allowed_models = "gpt-5" ∷ [];
  rate_limit_per_minute = pos 60;
  tags = [];
  revoked = false;
}

abbrev input_price : PricingComponent ℕ
input_price = record {
  id = "c";
  model_id = "m";
  code = "code";
  direction = direction_input;
  modality = modality_text;
  unit = unit_token;
  tier = none;
  scope = none;
  price = 3;
}

abbrev reply : Option (List StreamRead) → ChatResponse ℕ
reply stream = record {
  status_code = 200;
  stream = stream;
  latency_ms = 12;
  cost_usd = 1;
  input_tokens = pos 10;
  output_tokens = pos 20;
  cached_tokens = pos 0;
  reasoning_tokens = pos 0;
}

abbrev chat_call : ChatCall String
chat_call = record {
  is_post = true;
  api_key = some key_record;
  payload = some (record { model = some "fast"; stream = none; body = "{}" });
  request_id = "r";
  usage_id = "u";
  now = 5;
}

abbrev workers : Workers
workers = record { billing_worker = true; usage_worker = true; flusher = true }

abbrev targets : String → Option (String × String × Option (List (PricingComponent ℕ)))
targets name = if str_eq name "fast" then some ("p1", "gpt-5", some (input_price ∷ [])) else none

abbrev generous : String → ℤ → Details
generous id limit = answer true 59 100000000000

abbrev answering : String → String → Payload String → Bool → Option (ChatResponse ℕ)
answering provider model payload is_streaming = some (reply none)

handle_chat-provider_calls_example :
    provider_calls (handle_chat targets generous (λ id. true) answering workers chat_call).events
    ≡ "gpt-5" ∷ []
unfolding allows_model contains
handle_chat-provider_calls_example =
    handle_chat-provider_calls targets generous (λ id. true) answering workers chat_call

abbrev per_1k_prices : List (PricingComponent ℕ)
per_1k_prices =
    record input_price { unit = "1k_tokens"; price = 3000 }
    ∷ record input_price { unit = "1k_tokens"; direction = "output"; price = 5000 }
    ∷ []

respond-bills-per_1k_example :
    bills
      (respond workers chat_call key_record "fast" false
        (some per_1k_prices)
        (record (reply none) { input_tokens = pos 2000; output_tokens = pos 3000 })).events
    ≡ record { api_key_id = "k"; cost_usd = 21000; timestamp = 5 } ∷ []
unfolding find_pricing_component
respond-bills-per_1k_example =
    respond-bills-per_1k workers chat_call key_record "fast" false per_1k_prices
      (record input_price { unit = "1k_tokens"; price = 3000 })
      (record input_price { unit = "1k_tokens"; direction = "output"; price = 5000 })
      (record (reply none) { input_tokens = pos 2000; output_tokens = pos 3000 }) 1999 2999 refl
      refl refl refl refl refl refl refl refl
