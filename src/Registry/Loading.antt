-- ===== src/Registry/Loading.antt =====
-- When the loop of Reload finds a provider for an ID, and when it fails.
use think_pixel_llmgw.Prelude.{
  String, str_eq, true, false, ◌&&◌, Option, none, some, List, [], ◌∷◌, ◌≡◌, ◌∙◌, sym, ap, arith,
  Bool-cases, Option-cases, inl, inr,
}
use think_pixel_llmgw.Cache.{assign}
use think_pixel_llmgw.Registry.{
  ProviderRow, Table, Catalogue, credentials, instantiate, build_providers, load_registry,
}
use think_pixel_llmgw.Rows.{any_row, select_first, select_by_id}

module _ {ℓ} {P : Type ℓ} (encryption : Option (String → Option String))
    (make : ProviderRow → List (String × String) → Option P) where
  -- An ID without an enabled row gets no provider from the loop of Reload.
  pub build_providers-none :
      (rows : List ProviderRow) (m m' : Table P) (id : String)
      → build_providers encryption make rows m ≡ some m'
      → any_row (λ r. r.enabled && str_eq r.id id) rows ≡ false
      → m id ≡ none
      → m' id ≡ none
  unfolding build_providers any_row
  build_providers-none [] m m' id built absent at =
      ap (λ o. elim o [ none ↦ none | some t ↦ t id ]) (sym built) ∙ at
  build_providers-none (row ∷ rows) m m' id built absent at = elim (Bool-cases row.enabled) [
    | inr off ↦
        build_providers-none rows m m' id (ground (arith, off, built)) (ground (arith, off, absent))
          at
    | inl on ↦ elim (Option-cases (instantiate encryption make row)) [
      | inl failure ↦ ground (arith, on, failure, built)
      | inr (q, made) ↦
          build_providers-none rows (assign m row.id (some q)) m' id
            (ground (arith, on, made, built)) (ground (arith, on, absent))
            (ground (arith, on, absent, at))
    ]
  ]

  -- A row that is enabled and cannot be made into a provider makes the loop fail.
  pub build_providers-fails :
      (rows : List ProviderRow) (m : Table P) (row : ProviderRow) (id : String)
      → select_by_id (λ r. r.id) id rows ≡ some row
      → row.enabled ≡ true
      → instantiate encryption make row ≡ none
      → build_providers encryption make rows m ≡ none
  unfolding build_providers select_by_id select_first
  build_providers-fails [] m row id at on bad = ground (arith, at)
  build_providers-fails (r ∷ rows) m row id at on bad = elim (Bool-cases (str_eq r.id id)) [
    | inl here ↦
        let same : r ≡ row = ground (arith, here, at) in
        let on_r = ap (λ (p : ProviderRow). p.enabled) same ∙ on in
        let bad_r = ap (instantiate encryption make) same ∙ bad in ground (arith, on_r, bad_r)
    | inr later ↦
        let there : select_first (λ r. str_eq r.id id) rows ≡ some row =
          ground (arith, later, at) in
        elim (Bool-cases r.enabled) [
          | inr off ↦ rw off (build_providers-fails rows m row id there on bad)
          | inl enabled ↦ elim (Option-cases (instantiate encryption make r)) [
            | inl failure ↦ ground (arith, enabled, failure)
            | inr (q, made) ↦ ground (
              arith,
              enabled,
              made,
              build_providers-fails rows (assign m r.id (some q)) row id there on bad,
            )
          ]
        ]
  ]

  pub instantiate-fails :
      (row : ProviderRow) (cs : List (String × String))
      → credentials encryption row.encrypted_credentials ≡ some cs
      → make row cs ≡ none
      → instantiate encryption make row ≡ none
  unfolding instantiate
  instantiate-fails row cs read bad = ground (arith, read, bad)

  pub load_registry-fails :
      (c : Catalogue) (rows : List ProviderRow)
      → c.provider_rows ≡ some rows
      → build_providers encryption make rows (λ _. none) ≡ none
      → load_registry encryption make c ≡ none
  unfolding load_registry
  load_registry-fails c rows read bad = elim (Option-cases c.alias_rows) [
    | inl broken ↦ ground (arith, read, broken)
    | inr (aliases, read_a) ↦ elim (Option-cases c.model_rows) [
      | inl broken ↦ ground (arith, read, read_a, broken)
      | inr (models, read_m) ↦ ground (arith, read, read_a, read_m, bad)
    ]
  ]
