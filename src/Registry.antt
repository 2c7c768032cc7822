-- ===== src/Registry.antt =====
-- The provider registry, llm_gateway/internal/providers/registry.go: which provider serves a model
-- or an alias. The factory (`create`), the decryption of a credential (`decrypt`) and the queries
-- of one model are parameters; fields of the rows that Reload does not read are left out; `none` is an error. A uuid.Nil is `none` in an alias.
pub mod Resolution
pub mod Loading
mod Tests
use think_pixel_llmgw.Prelude.{
  ℕ, String, str_eq, Bool, true, false, ◌&&◌, ◌||◌, Option, none, some, List, [], ◌∷◌,
  if◌then◌else◌,
}
use think_pixel_llmgw.Cache.{assign}

-- A value of a JSON object of credentials or of a configuration: a text, or anything else.
pub data Credential : Type 0 where
  text : String → Credential
  other : Credential

pub record ProviderRow : Type 0 where
  pub id : String
  pub name : String
  pub display_name : String
  pub provider_type : String
  pub config : List (String × Credential)
  pub encrypted_credentials : List (String × Credential)
  pub enabled : Bool

pub record AliasRow : Type 0 where
  pub id : String
  pub alias : String
  pub target_model_id : String
  pub provider_id : Option String
  pub enabled : Bool

pub record ModelRow : Type 0 where
  pub id : String
  pub model_name : String
  pub provider_id : String

-- matchesLiteLLMProvider
unfoldable pub matches_lite_llm_provider : String → String → Bool
matches_lite_llm_provider provider_type lite_llm_provider =
    if str_eq provider_type "openai"
    then str_eq lite_llm_provider "openai"
    else if str_eq provider_type "vertexai"
    then str_eq lite_llm_provider "vertex_ai" || str_eq lite_llm_provider "vertexai"
    else if str_eq provider_type "bedrock"
    then str_eq lite_llm_provider "bedrock" || str_eq lite_llm_provider "aws_bedrock"
    else str_eq provider_type lite_llm_provider

-- A Go map whose keys are texts.
abbrev pub Table {ℓ} : Type ℓ → Type ℓ
Table A = String → Option A

pub record ProviderRegistry {ℓ} (P : Type ℓ) : Type ℓ where
  pub providers : Table P
  pub model_to_provider : Table String
  pub alias_to_provider : Table String
  pub alias_to_model : Table String

module _ {ℓ} {P : Type ℓ} where
  -- The end of a resolution, with the provider ID and the model name.
  abbrev pub provide : ProviderRegistry P → String → String → Option (P × String)
  provide r provider_id model_name = elim (r.providers provider_id) [
    | none ↦ none
    | some p ↦ some (p, model_name)
  ]

  -- `aliasToModel[alias]`, which is the empty text for a missing alias.
  abbrev pub model_of : ProviderRegistry P → String → String
  model_of r name = elim (r.alias_to_model name) [ none ↦ "" | some m ↦ m ]

  unfoldable pub resolve_model : ProviderRegistry P → String → Option (P × String)
  resolve_model r name = elim (r.alias_to_provider name) [
    | some id ↦ provide r id (model_of r name)
    | none ↦ elim (r.model_to_provider name) [ some id ↦ provide r id name | none ↦ none ]
  ]

  -- The provider ID and the model name, before the provider is looked up.
  unfoldable pub resolve_name : ProviderRegistry P → String → Option (String × String)
  resolve_name r name = elim (r.alias_to_provider name) [
    | some id ↦ some (id, model_of r name)
    | none ↦ elim (r.model_to_provider name) [ some id ↦ some (id, name) | none ↦ none ]
  ]

  unfoldable pub resolve_model_with_details :
      {M : Type ℓ} → (String → Option M) → ProviderRegistry P → String → Option (P × String × M)
  unfolding resolve_name
  resolve_model_with_details get_by_name r name = elim (resolve_name r name) [
    | none ↦ none
    | some (id, model_name) ↦ elim (r.providers id) [
      | none ↦ none
      | some p ↦ elim (get_by_name model_name) [ none ↦ none | some m ↦ some (p, model_name, m) ]
    ]
  ]

  unfoldable pub get_provider : ProviderRegistry P → String → Option P
  get_provider r id = r.providers id

-- The texts among the credentials, decrypted; anything else is left out.
unfoldable pub decrypt_all :
    (String → Option String) → List (String × Credential) → Option (List (String × String))
decrypt_all decrypt [] = some []
decrypt_all decrypt ((key, text val) ∷ rest) = elim (decrypt val) [
  | none ↦ none
  | some plain ↦ elim (decrypt_all decrypt rest) [
    | none ↦ none
    | some cs ↦ some ((key, plain) ∷ cs)
  ]
]
decrypt_all decrypt ((key, other) ∷ rest) = decrypt_all decrypt rest

-- Without an Encryption no credential is passed on.
unfoldable pub credentials :
    Option (String → Option String) → List (String × Credential) → Option (List (String × String))
unfolding decrypt_all
credentials none cs = some []
credentials (some decrypt) cs = decrypt_all decrypt cs

module _ {ℓ} {P : Type ℓ} (encryption : Option (String → Option String))
    (create : ProviderRow → List (String × String) → Option P) where
  unfoldable pub instantiate : ProviderRow → Option P
  unfolding credentials
  instantiate row = elim (credentials encryption row.encrypted_credentials) [
    | none ↦ none
    | some cs ↦ create row cs
  ]

  -- The loop of Reload over the providers; the first failure ends it.
  unfoldable pub build_providers : List ProviderRow → Table P → Option (Table P)
  build_providers [] m = some m
  build_providers (row ∷ rows) m =
      if row.enabled
      then (elim (instantiate row) [
        | none ↦ none
        | some p ↦ build_providers rows (assign m row.id (some p))
      ])
      else build_providers rows m

-- The inner loop over the providers: the first that is enabled and matches.
unfoldable pub first_matching : List ProviderRow → String → Option String
unfolding matches_lite_llm_provider
first_matching [] lite_llm_provider = none
first_matching (row ∷ rows) lite_llm_provider =
    if row.enabled && matches_lite_llm_provider row.provider_type lite_llm_provider
    then some row.id
    else first_matching rows lite_llm_provider

unfoldable pub map_models : List ProviderRow → List ModelRow → Table String → Table String
unfolding first_matching
map_models rows [] m = m
map_models rows (model ∷ models) m =
    map_models rows models (elim (first_matching rows model.provider_id) [
      | none ↦ m
      | some id ↦ assign m model.model_name (some id)
    ])

-- The maps alias -> provider and alias -> model.
abbrev pub Aliases : Type 0
Aliases = Table String × Table String

-- The body of the loop over the aliases, for one that is enabled and whose target is `model`.
unfoldable pub map_alias : Table String → AliasRow → ModelRow → Aliases → Aliases
map_alias model_to_provider a model (to_provider, to_model) = (
  elim a.provider_id [
    | some id ↦ assign to_provider a.alias (some id)
    | none ↦ elim (model_to_provider model.model_name) [
      | some id ↦ assign to_provider a.alias (some id)
      | none ↦ to_provider
    ]
  ],
  assign to_model a.alias (some model.model_name),
)

unfoldable pub map_aliases :
    Table String → (String → Option ModelRow) → List AliasRow → Aliases → Aliases
unfolding map_alias
map_aliases model_to_provider model_by_id [] m = m
map_aliases model_to_provider model_by_id (a ∷ more) m =
    map_aliases model_to_provider model_by_id more (
      if a.enabled
      then (elim (model_by_id a.target_model_id) [
        | none ↦ m
        | some model ↦ map_alias model_to_provider a model m
      ])
      else m)

-- What Reload reads; a list that cannot be read is `none`.
pub record Catalogue : Type 0 where
  pub provider_rows : Option (List ProviderRow)
  pub alias_rows : Option (List AliasRow)
  pub model_rows : Option (List ModelRow)
  pub model_by_id : String → Option ModelRow

module _ {ℓ} {P : Type ℓ} (encryption : Option (String → Option String))
    (create : ProviderRow → List (String × String) → Option P) where
  unfoldable pub load_registry : Catalogue → Option (ProviderRegistry P)
  unfolding map_models map_aliases
  load_registry c = elim c.provider_rows [
    | none ↦ none
    | some rows ↦ elim c.alias_rows [
      | none ↦ none
      | some aliases ↦ elim c.model_rows [
        | none ↦ none
        | some models ↦ elim (build_providers encryption create rows (λ _. none)) [
          | none ↦ none
          | some providers ↦
              let model_to_provider = map_models rows models (λ _. none) in
              let (to_provider, to_model) =
                map_aliases model_to_provider c.model_by_id aliases (λ _. none, λ _. none) in
              some (record {
                providers = providers;
                model_to_provider = model_to_provider;
                alias_to_provider = to_provider;
                alias_to_model = to_model;
              })
        ]
      ]
    ]
  ]

  -- Reload: on an error the registry stays as it was.
  unfoldable pub reload : Catalogue → ProviderRegistry P → ProviderRegistry P
  unfolding load_registry
  reload c r = elim (load_registry c) [ none ↦ r | some r' ↦ r' ]

  -- Close, of the maps.
  unfoldable pub close : ProviderRegistry P → ProviderRegistry P
  close r = record {
    providers = λ _. none;
    model_to_provider = λ _. none;
    alias_to_provider = λ _. none;
    alias_to_model = λ _. none;
  }
