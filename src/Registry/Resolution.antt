-- ===== src/Registry/Resolution.antt =====
-- What the registry resolves after a reload.
use think_pixel_llmgw.Prelude.{
  String, str_eq, true, Option, none, some, List, [], ◌∷◌, ◌≡◌, sym, ap, ◌∙◌, ◌⊎◌, inl, inr, arith,
  Bool-cases, Option-cases,
}
use think_pixel_llmgw.Cache.{assign}
use think_pixel_llmgw.Registry.{
  ProviderRow, Table, ProviderRegistry, resolve_model, resolve_name, resolve_model_with_details,
  instantiate, build_providers, Catalogue, load_registry, reload,
}

module _ {ℓ} {P : Type ℓ} where
  -- The answer of ResolveModel, with the details of the model that it names.
  abbrev pub with_details :
      {M : Type ℓ} → (String → Option M) → Option (P × String) → Option (P × String × M)
  with_details get_by_name none = none
  with_details get_by_name (some (p, m)) = elim (get_by_name m) [
    | none ↦ none
    | some d ↦ some (p, m, d)
  ]

  -- ResolveModelWithDetails answers as ResolveModel does, with the details of the resolved model,
  -- and fails where ResolveModel fails or the model has no details.
  pub resolve_model_with_details_lem :
      {M : Type ℓ} (get_by_name : String → Option M) (r : ProviderRegistry P) (name : String)
      → resolve_model_with_details get_by_name r name
        ≡ with_details get_by_name (resolve_model r name)
  unfolding resolve_model_with_details resolve_name resolve_model
  resolve_model_with_details_lem get_by_name r name =
      elim (Option-cases (r.alias_to_provider name)) [
        | inl no_alias ↦ elim (Option-cases (r.model_to_provider name)) [
          | inl unknown ↦ ground (arith, no_alias, unknown)
          | inr (id, known) ↦ elim (Option-cases (r.providers id)) [
            | inl gone ↦ ground (arith, no_alias, known, gone)
            | inr (p, there) ↦ ground (arith, no_alias, known, there)
          ]
        ]
        | inr (id, is_alias) ↦ elim (Option-cases (r.providers id)) [
          | inl gone ↦ ground (arith, is_alias, gone)
          | inr (p, there) ↦ ground (arith, is_alias, there)
        ]
      ]

module _ {ℓ} {P : Type ℓ} (encryption : Option (String → Option String))
    (create : ProviderRow → List (String × String) → Option P) where
  -- One of the rows is enabled, and `p` was made of it.
  pub data Made (p : P) : List ProviderRow → Type ℓ where
    made_here :
        {row : ProviderRow} {rows : List ProviderRow}
        → row.enabled ≡ true
        → instantiate encryption create row ≡ some p
        → Made p (row ∷ rows)
    made_later : {row : ProviderRow} {rows : List ProviderRow} → Made p rows → Made p (row ∷ rows)

  build_providers-Made :
      (rows : List ProviderRow) (m m' : Table P) (id : String) (p : P)
      → build_providers encryption create rows m ≡ some m'
      → m' id ≡ some p
      → (m id ≡ some p) ⊎ Made p rows
  unfolding build_providers
  build_providers-Made [] m m' id p built at =
      inl (ap (λ o. elim o [ none ↦ none | some t ↦ t id ]) built ∙ at)
  build_providers-Made (row ∷ rows) m m' id p built at = elim (Bool-cases row.enabled) [
    | inr off ↦ elim (build_providers-Made rows m m' id p (ground (arith, off, built)) at) [
      | inl before ↦ inl before
      | inr made ↦ inr (made_later made)
    ]
    | inl on ↦ elim (Option-cases (instantiate encryption create row)) [
      | inl failure ↦ ground (arith, on, failure, built)
      | inr (q, made) ↦
          elim (build_providers-Made rows (assign m row.id (some q)) m' id p
            (ground (arith, on, made, built)) at) [
              | inr later ↦ inr (made_later later)
              | inl now ↦ elim (Bool-cases (str_eq row.id id)) [
                | inl same ↦ inr (made_here on (made ∙ ground (arith, now, same)))
                | inr differs ↦ inl (ground (arith, now, differs))
              ]
            ]
    ]
  ]

  resolve_model-providers :
      (r : ProviderRegistry P) (name model_name : String) (p : P)
      → resolve_model r name ≡ some (p, model_name)
      → (id : String) × (r.providers id ≡ some p)
  unfolding resolve_model
  resolve_model-providers r name model_name p at = elim (Option-cases (r.alias_to_provider name)) [
    | inr (id, is_alias) ↦ (
      id,
      elim (Option-cases (r.providers id)) [
        | inl gone ↦ ground (arith, is_alias, gone, at)
        | inr (q, there) ↦ ground (arith, is_alias, there, at)
      ],
    )
    | inl no_alias ↦ elim (Option-cases (r.model_to_provider name)) [
      | inl unknown ↦ ground (arith, no_alias, unknown, at)
      | inr (id, known) ↦ (
        id,
        elim (Option-cases (r.providers id)) [
          | inl gone ↦ ground (arith, no_alias, known, gone, at)
          | inr (q, there) ↦ ground (arith, no_alias, known, there, at)
        ],
      )
    ]
  ]

  abbrev providers_of : Option (ProviderRegistry P) → Option (Table P)
  providers_of none = none
  providers_of (some r) = some r.providers

  -- The providers of a registry that is loaded are those that the first loop builds.
  pub load_registry-providers :
      (c : Catalogue) (r : ProviderRegistry P) (rows : List ProviderRow)
      → c.provider_rows ≡ some rows
      → load_registry encryption create c ≡ some r
      → build_providers encryption create rows (λ _. none) ≡ some r.providers
  unfolding load_registry
  load_registry-providers c r rows read loaded = elim (Option-cases c.alias_rows) [
    | inl broken ↦ ground (arith, read, broken, loaded)
    | inr (aliases, read_a) ↦ elim (Option-cases c.model_rows) [
      | inl broken ↦ ground (arith, read, read_a, broken, loaded)
      | inr (models, read_m) ↦
          elim (Option-cases (build_providers encryption create rows (λ _. none))) [
            | inl broken ↦ ground (arith, read, read_a, read_m, broken, loaded)
            | inr (made, built) ↦
                let same : providers_of (load_registry encryption create c) ≡ some made =
                  ground (arith, read, read_a, read_m, built) in
                built ∙ sym same ∙ ap providers_of loaded
          ]
    ]
  ]

  load_registry-Made :
      (c : Catalogue) (r : ProviderRegistry P) (id : String) (p : P) (rows : List ProviderRow)
      → c.provider_rows ≡ some rows
      → load_registry encryption create c ≡ some r
      → r.providers id ≡ some p
      → Made p rows
  load_registry-Made c r id p rows read loaded at =
      elim (build_providers-Made rows (λ _. none) r.providers id p
        (load_registry-providers c r rows read loaded) at) [
          | inl empty ↦ ground (arith, empty)
          | inr there ↦ there
        ]

  -- After a Reload that could read the providers as `rows` and did not fail, a provider that
  -- ResolveModel answers for a model or an alias was made of one of the rows that is enabled,
  -- with that row's decrypted credentials.
  pub resolve_model-Made :
      (c : Catalogue) (r r' : ProviderRegistry P) (rows : List ProviderRow)
      (name model_name : String) (p : P)
      → c.provider_rows ≡ some rows
      → load_registry encryption create c ≡ some r'
      → resolve_model (reload encryption create c r) name ≡ some (p, model_name)
      → Made p rows
  unfolding reload
  resolve_model-Made c r r' rows name model_name p read loaded at =
      let (id, there) = resolve_model-providers r' name model_name p (ground (arith, loaded, at)) in
      load_registry-Made c r' id p rows read loaded there
