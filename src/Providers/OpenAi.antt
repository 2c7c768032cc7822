-- ===== src/Providers/OpenAi.antt =====
-- The OpenAI provider, llm_gateway/internal/providers/openai.go, and its authentication, auth.go.
-- The HTTP client, the JSON decoder and the encoder are parameters; times are left out.
use think_pixel_llmgw.Prelude.{
  ℕ, String, ◌⊕◌, str_eq, Bool, true, false, not, ◌&&◌, ◌==◌, Option, none, some, List, [], ◌∷◌,
  ◌++◌, if◌then◌else◌, ℤ, pos, negsuc, is_pos, Float64,
}
use think_pixel_llmgw.Providers.{OpenAiProvider}

-- A value of the payload's map: nil, a text, a Boolean or anything else.
pub data Value {ℓ} (T : Type ℓ) : Type ℓ where
  null : Value T
  text : String → Value T
  flag : Bool → Value T
  other : T → Value T

abbrev pub is_null {ℓ} : {T : Type ℓ} → Value T → Bool
is_null null = true
is_null (text s) = false
is_null (flag b) = false
is_null (other t) = false

-- `if stream, ok := v.(bool); ok`
abbrev pub flag_or {ℓ} : {T : Type ℓ} → Bool → Value T → Bool
flag_or b (flag b') = b'
flag_or b null = b
flag_or b (text s) = b
flag_or b (other t) = b

abbrev pub is_nought : ℤ → Bool
is_nought (pos n) = n == 0
is_nought (negsuc n) = false

abbrev pub Payload {ℓ} : Type ℓ → Type ℓ
Payload T = List (String × Value T)

-- `m[key]`, which is nil for a missing key.
unfoldable pub value_at {ℓ} : {T : Type ℓ} → Payload T → String → Value T
value_at [] key = null
value_at ((k, v) ∷ more) key = if str_eq k key then v else value_at more key

-- `m[key] = v`
unfoldable pub put_at {ℓ} : {T : Type ℓ} → Payload T → String → Value T → Payload T
put_at [] key v = (key, v) ∷ []
put_at ((k, w) ∷ more) key v = if str_eq k key then (k, v) ∷ more else (k, w) ∷ put_at more key v

pub record HttpRequest : Type 0 where
  pub method : String
  pub url : String
  pub headers : List (String × String)
  pub body : String

-- A body that cannot be read is `none`.
pub record HttpResponse : Type 0 where
  pub status_code : ℕ
  pub body : Option String

-- The fields of `usage` that are decoded; a missing one is zero.
pub record DecodedUsage : Type 0 where
  pub input_tokens : ℤ
  pub output_tokens : ℤ
  pub total_tokens : ℤ
  pub prompt_tokens : ℤ
  pub completion_tokens : ℤ
  pub cached_tokens : ℤ
  pub reasoning_tokens : ℤ

pub record UsageInfo : Type 0 where
  pub input_tokens : ℤ
  pub output_tokens : ℤ
  pub cached_tokens : ℤ
  pub reasoning_tokens : ℤ
  pub total_tokens : ℤ

-- What Chat returns: an answer with its body, cost and usage; one whose body is left open; an error.
pub data ChatResult {ℓ} (W : Type ℓ) : Type ℓ where
  answered : ℕ → String → W → UsageInfo → ChatResult W
  streaming : ℕ → ChatResult W
  chat_failed : ChatResult W

abbrev pub no_usage : UsageInfo
no_usage = record {
  input_tokens = pos 0;
  output_tokens = pos 0;
  cached_tokens = pos 0;
  reasoning_tokens = pos 0;
  total_tokens = pos 0;
}

-- `if tokens == 0 && alternative > 0`
abbrev pub or_alternative : ℤ → ℤ → ℤ
or_alternative tokens alternative =
    if is_nought tokens && is_pos alternative then alternative else tokens

abbrev pub usage_from : Option DecodedUsage → UsageInfo
usage_from none = no_usage
usage_from (some u) = record {
  input_tokens = or_alternative u.input_tokens u.prompt_tokens;
  output_tokens = or_alternative u.output_tokens u.completion_tokens;
  cached_tokens = u.cached_tokens;
  reasoning_tokens = u.reasoning_tokens;
  total_tokens = u.total_tokens;
}

-- `req.Payload`, with the model put into it where it has none.
unfoldable pub upstream_payload {ℓ} : {T : Type ℓ} → Payload T → String → Payload T
unfolding value_at put_at
upstream_payload payload model =
    if is_null (value_at payload "model") then put_at payload "model" (text model) else payload

unfoldable pub is_stream {ℓ} : {T : Type ℓ} → Payload T → Bool → Bool
unfolding value_at
is_stream payload requested = flag_or requested (value_at payload "stream")

-- SimpleAPIKeyAuth, as the provider makes it: Authenticate and ApplyToRequest.
unfoldable pub authenticate : OpenAiProvider → HttpRequest → Option HttpRequest
authenticate p r =
    if str_eq p.api_key ""
    then none
    else some (record r { headers = r.headers ++ ("Authorization", "Bearer " ⊕ p.api_key) ∷ [] })

abbrev pub chat_request : OpenAiProvider → String → HttpRequest
chat_request p body = record {
  method = "POST";
  url = p.base_url ⊕ "/chat/completions";
  headers = ("Content-Type", "application/json") ∷ [];
  body = body;
}

abbrev pub or_nothing : Option String → String
or_nothing none = ""
or_nothing (some s) = s

-- extractUsageFromResponse; `decode_usage` is the decoder of the JSON.
unfoldable pub extract_usage_from_response : (String → Option DecodedUsage) → String → UsageInfo
extract_usage_from_response decode_usage body = usage_from (decode_usage body)

module _ {ℓ} {W : Type ℓ} ⦃f : Float64 W⦄ (decode_usage : String → Option DecodedUsage) where
  -- 0.00001 and 0.00003 are the quotients rounded to float64.
  unfoldable pub extract_cost_from_response : String → W
  unfolding extract_usage_from_response
  extract_cost_from_response body =
      let usage = extract_usage_from_response decode_usage body in
      f.plus
        (f.times (f.of_int usage.input_tokens) (f.over (f.of_int (pos 1)) (f.of_int (pos 100000))))
        (f.times (f.of_int usage.output_tokens) (f.over (f.of_int (pos 3)) (f.of_int (pos 100000))))

  abbrev pub read_body : ℕ → Option String → ChatResult W
  read_body status none = chat_failed
  read_body status (some body) =
      if status == 200
      then answered status body (extract_cost_from_response body)
          (extract_usage_from_response decode_usage body)
      else answered status body f.nought no_usage

  -- What Chat makes of the response.
  abbrev pub take_response : Bool → Option HttpResponse → ChatResult W
  take_response streams none = chat_failed
  take_response streams (some r) =
      if not streams
      then read_body r.status_code r.body
      else (if r.status_code == 200
          then streaming r.status_code
          else answered r.status_code (or_nothing r.body) f.nought no_usage)

  abbrev pub send_authenticated :
      (HttpRequest → Option HttpResponse) → Bool → Option HttpRequest → ChatResult W
  send_authenticated send streams none = chat_failed
  send_authenticated send streams (some r) = take_response streams (send r)

  abbrev pub send_encoded :
      (HttpRequest → Option HttpResponse) → OpenAiProvider → Bool → Option String → ChatResult W
  send_encoded send p streams none = chat_failed
  send_encoded send p streams (some body) =
      send_authenticated send streams (authenticate p (chat_request p body))

  unfoldable pub chat :
      {T : Type ℓ}
      → (Payload T → Option String)
      → (HttpRequest → Option HttpResponse)
      → OpenAiProvider
      → Payload T
      → String
      → Bool
      → ChatResult W
  unfolding upstream_payload is_stream authenticate extract_usage_from_response
      extract_cost_from_response
  chat encode send p payload model requested =
      let sent = upstream_payload payload model in
      send_encoded send p (is_stream sent requested) (encode sent)

abbrev pub accepts : Option HttpResponse → Bool
accepts none = false
accepts (some r) = r.status_code == 200

abbrev pub accepts_request : (HttpRequest → Option HttpResponse) → Option HttpRequest → Bool
accepts_request send none = false
accepts_request send (some r) = accepts (send r)

-- The result says whether nil is returned.
unfoldable pub validate_credentials : (HttpRequest → Option HttpResponse) → OpenAiProvider → Bool
unfolding authenticate
validate_credentials send p = accepts_request send (
    authenticate p
      (record { method = "GET"; url = p.base_url ⊕ "/models"; headers = []; body = "" }))
