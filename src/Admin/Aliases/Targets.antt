-- ===== src/Admin/Aliases/Targets.antt =====
-- Which aliases the handlers let in, and what becomes of their tags.
use think_pixel_llmgw.Prelude.{
  String, str_eq, eq_iff, Bool, true, false, ◌||◌, not, Option, none, some, List, [], ◌∷◌, ◌≡◌, ◌∙◌,
  refl, sym, ap, arith, Bool-cases, Option-cases, inl, inr,
}
use think_pixel_llmgw.Redis.{Link}
use think_pixel_llmgw.Registry.{ProviderRow, ModelRow, matches_lite_llm_provider, first_matching}
use think_pixel_llmgw.Rows.{any_row, select_by_id}
use think_pixel_llmgw.Admin.Providers.{is_provider_type}
use think_pixel_llmgw.Admin.{State}
use think_pixel_llmgw.Admin.Aliases.{
  GivenId, empty_id, malformed_id, parsed_id, CreateAliasRequest, create, create_parsed,
  create_with, create_for,
}

created_with :
    (s s' : State) (link : Link) (links : List Link) (id : String) (req : CreateAliasRequest)
    (target provider : GivenId)
    → create_parsed s link links id req target provider ≡ (s', 201)
    → (t : String) × (p : String) × (target ≡ parsed_id t)
      × (provider ≡ parsed_id p)
      × (create_with s link links id req (select_by_id (λ m. m.id) t s.model_rows) p ≡ (s', 201))
created_with s s' link links id req (parsed_id t) (parsed_id p) made = (t, p, refl, refl, made)
created_with s s' link links id req (parsed_id t) empty_id made = ground (arith, made)
created_with s s' link links id req (parsed_id t) malformed_id made = ground (arith, made)
created_with s s' link links id req empty_id provider made = ground (arith, made)
created_with s s' link links id req malformed_id provider made = ground (arith, made)

created_for :
    (s s' : State) (link : Link) (links : List Link) (id : String) (req : CreateAliasRequest)
    (model : ModelRow) (o : Option ProviderRow)
    → create_for s link links id req model o ≡ (s', 201)
    → (p : ProviderRow) × (o ≡ some p) × (p.enabled ≡ true) × (model.provider_id ≡ p.id)
created_for s s' link links id req model none made = ground (arith, made)
created_for s s' link links id req model (some p) made =
    elim (Bool-cases (not p.enabled || not (str_eq model.provider_id p.id))) [
      | inl bad ↦ ground (arith, bad, made)
      | inr good ↦
          (p, refl, ground (arith, good), (eq_iff model.provider_id p.id).0 (ground (arith, good)))
    ]

-- An alias that Create answers 201 for has a target model in the table, which names the ID of an
-- enabled provider in the table as its provider.
pub create-targets :
    (s s' : State) (link : Link) (links : List Link) (id : String) (req : CreateAliasRequest)
    → create s link links id req ≡ (s', 201)
    → (t : String) × (i : String) × (model : ModelRow) × (p : ProviderRow) × (req.target_model_id
        ≡ parsed_id t)
      × (req.provider_id ≡ parsed_id i)
      × (select_by_id (λ m. m.id) t s.model_rows ≡ some model)
      × (select_by_id (λ r. r.id) i s.provider_rows ≡ some p)
      × (p.enabled ≡ true)
      × (model.provider_id ≡ p.id)
unfolding create
create-targets s s' link links id req made = elim (Bool-cases (str_eq req.alias_name "")) [
  | inl bad ↦ ground (arith, bad, made)
  | inr good ↦
      let (t, i, is_t, is_i, with_model) =
        created_with s s' link links id req req.target_model_id req.provider_id
          (ground (arith, good, made)) in
      elim (Option-cases (select_by_id (λ m. m.id) t s.model_rows)) [
        | inl gone ↦ ground (arith, gone, with_model)
        | inr (model, there) ↦
            let (p, found, on, same) =
              created_for s s' link links id req model (select_by_id (λ r. r.id) i s.provider_rows)
                (sym (ap (λ o. create_with s link links id req o i) there) ∙ with_model) in
            (t, i, model, p, is_t, is_i, there, found, on, same)
      ]
]

-- The names under which the registry finds a provider for a model.
abbrev pub is_provider_name : String → Bool
is_provider_name n =
    str_eq n "openai"
    || str_eq n "vertex_ai"
    || str_eq n "vertexai"
    || str_eq n "bedrock"
    || str_eq n "aws_bedrock"

matches-name :
    (type n : String)
    → is_provider_type type ≡ true
    → is_provider_name n ≡ false
    → matches_lite_llm_provider type n ≡ false
unfolding matches_lite_llm_provider
matches-name type n known unnamed = ground (arith, known, unnamed)

first_matching-name :
    (rows : List ProviderRow) (n : String)
    → any_row (λ r. not (is_provider_type r.provider_type)) rows ≡ false
    → is_provider_name n ≡ false
    → first_matching rows n ≡ none
unfolding first_matching any_row
first_matching-name [] n known unnamed = refl
first_matching-name (r ∷ rows) n known unnamed = ground (
  arith,
  known,
  unnamed,
  matches-name r.provider_type n (ground (arith, known)) unnamed,
  first_matching-name rows n (ground (arith, known)) unnamed,
)

-- In a gateway whose providers have the three known types, and none of whose provider IDs is one
-- of the names that the registry matches, a model that Create accepts as the target of an alias
-- is one for which Reload finds no provider under the model's own name.
pub create-unmatched :
    (s s' : State) (link : Link) (links : List Link) (id : String) (req : CreateAliasRequest)
    → create s link links id req ≡ (s', 201)
    → any_row (λ r. not (is_provider_type r.provider_type)) s.provider_rows ≡ false
    → ((i : String) (p : ProviderRow)
        → select_by_id (λ r. r.id) i s.provider_rows ≡ some p
        → is_provider_name p.id ≡ false)
    → (t : String) × (model : ModelRow) × (req.target_model_id ≡ parsed_id t)
      × (select_by_id (λ m. m.id) t s.model_rows ≡ some model)
      × (first_matching s.provider_rows model.provider_id ≡ none)
create-unmatched s s' link links id req made known uuids =
    let (t, i, model, p, is_t, is_i, there, found, on, same) =
      create-targets s s' link links id req made in
    (
      t,
      model,
      is_t,
      there,
      first_matching-name s.provider_rows model.provider_id known
          (ap is_provider_name same ∙ uuids i p found),
    )
