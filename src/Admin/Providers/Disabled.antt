-- ===== src/Admin/Providers/Disabled.antt =====
-- What the handlers of providers do to the registry.
use think_pixel_llmgw.Prelude.{
  ℕ, String, str_eq, Bool, true, false, ◌&&◌, ◌||◌, if-false, not, Option, none, some, List, [],
  ◌∷◌, ◌≡◌, ◌∙◌, refl, sym, ap, arith, Bool-cases, Option-cases, inl, inr,
}
use think_pixel_llmgw.Redis.{Link, replied, refused, reply_lost}
use think_pixel_llmgw.Encryption.{Bytes, Aead, Base64, Encryption, decrypt}
use think_pixel_llmgw.Auth.{role_admin, has_role, contains}
use think_pixel_llmgw.Registry.{
  ProviderRow, Credential, ProviderRegistry, instantiate, load_registry, reload,
}
use think_pixel_llmgw.Registry.Resolution.{load_registry-providers}
use think_pixel_llmgw.Registry.Loading.{
  build_providers-none, build_providers-fails, instantiate-fails, load_registry-fails,
}
use think_pixel_llmgw.Rows.{any_row, select_by_id, select_by_id-row_id, update_row, wrote}
use think_pixel_llmgw.Providers.{Provider, create_provider, entry_of}
use think_pixel_llmgw.Providers.Factory.{create_provider_iff}
use think_pixel_llmgw.Admin.{State, reload_registry, catalogue_of}
use think_pixel_llmgw.Admin.Providers.{
  CreateProviderRequest, Inserted, conflicts, new_row, create_row, answer_insert, encrypt_all,
  encrypted, with_encrypted, is_provider_type, Found, found, missing, query_failed, with_found,
  answer_update, get_by_id, update, delete_provider, create,
}
use think_pixel_llmgw.Admin.Providers.Credentials.{texts, create-IsStored, create-reloads}

-- After a row is disabled no row with its ID is enabled.
update_row-disabled :
    (row : ProviderRow) (rows : List ProviderRow)
    → row.enabled ≡ false
    → any_row (λ r. r.enabled && str_eq r.id row.id) (update_row (λ r. r.id) row rows) ≡ false
unfolding update_row any_row
update_row-disabled row [] off = refl
update_row-disabled row (r ∷ rows) off = elim (Bool-cases (str_eq r.id row.id)) [
  | inl same ↦ rw (same, off) (update_row-disabled row rows off)
  | inr differs ↦ ground (arith, differs, update_row-disabled row rows off)
]

module _ (b64 : Base64) (gcm : Aead) (e : Encryption) where
  with_found-answered :
      (s s' : State) (go : ProviderRow → State × ℕ) (f : Found)
      → with_found s go f ≡ (s', 200)
      → (row : ProviderRow) × (f ≡ found row) × (go row ≡ (s', 200))
  with_found-answered s s' go (found row) made = (row, refl, made)
  with_found-answered s s' go missing made = ground (arith, made)
  with_found-answered s s' go query_failed made = ground (arith, made)

  get_by_id-found :
      (rows : List ProviderRow) (works : Bool) (id : String) (row : ProviderRow)
      → get_by_id rows works id ≡ found row
      → select_by_id (λ r. r.id) id rows ≡ some row
  unfolding get_by_id
  get_by_id-found rows false id row at = ground (arith, at)
  get_by_id-found rows true id row at = elim (Option-cases (select_by_id (λ r. r.id) id rows)) [
    | inl gone ↦ ground (arith, gone, at)
    | inr (r, there) ↦ ground (arith, there, at)
  ]

  wrote-answered :
      (reads : Bool) (link : Link) (s s' : State) (rows : List ProviderRow)
      → answer_update b64 gcm e reads s (wrote s.provider_rows rows link) ≡ (s', 200)
      → s' ≡ reload_registry b64 gcm e reads (record s { provider_rows = rows })
  wrote-answered reads replied s s' rows made = ap (λ (p : State × ℕ). p.0) (sym made)
  wrote-answered reads refused s s' rows made = ground (arith, made)
  wrote-answered reads reply_lost s s' rows made = ground (arith, made)

  -- An answer of 200 comes from an update that worked, and the reload that follows it.
  update-answered :
      (reads : Bool) (link : Link) (s s' : State) (row : ProviderRow)
      → answer_update b64 gcm e reads s (update s.provider_rows link row) ≡ (s', 200)
      → s'
        ≡ reload_registry b64 gcm e reads
            (record s { provider_rows = update_row (λ r. r.id) row s.provider_rows })
  unfolding update
  update-answered reads link s s' row made =
      elim (Bool-cases (
        any_row (λ r. str_eq r.id row.id) s.provider_rows
        && not
            (any_row (λ r. not (str_eq r.id row.id) && str_eq r.name row.name) s.provider_rows))) [
              | inr no_ ↦ ground (arith, no_, made)
              | inl may ↦
                  wrote-answered reads link s s' (update_row (λ r. r.id) row s.provider_rows)
                    (ground (arith, may, made))
            ]

  -- Where Delete answers 200 and the registry could be loaded from the tables that it leaves, no
  -- provider is registered under the ID any more, so none is resolved to it.
  pub delete_provider-none :
      (s s' : State) (works : Bool) (link : Link) (id : String) (r : ProviderRegistry Provider)
      → delete_provider b64 gcm e s works link true id ≡ (s', 200)
      → load_registry (some (decrypt b64 gcm e)) create_provider (catalogue_of true s') ≡ some r
      → s'.registry.providers id ≡ none
  unfolding delete_provider reload_registry reload
  delete_provider-none s s' works link id r made loaded =
      let go = λ (row : ProviderRow).
        answer_update b64 gcm e true s
          (update s.provider_rows link (record row { enabled = false })) in
      let (row, at, went) = with_found-answered s s' go (get_by_id s.provider_rows works id) made in
      let off : ProviderRow = record row { enabled = false } in
      let there = get_by_id-found s.provider_rows works id row at in
      let same_id = select_by_id-row_id (λ (p : ProviderRow). p.id) id s.provider_rows row there in
      let rows = update_row (λ r. r.id) off s.provider_rows in
      let is = update-answered true link s s' off went in
      let left =
        ap
          (λ (t : State).
            load_registry (some (decrypt b64 gcm e)) create_provider (catalogue_of true t))
          (sym is)
        ∙ loaded in
      let built =
        load_registry-providers (some (decrypt b64 gcm e)) create_provider
          (catalogue_of true (record s { provider_rows = rows })) r rows refl left in
      let gone =
        build_providers-none (some (decrypt b64 gcm e)) create_provider rows (λ _. none) r.providers
          id built
          (ap (λ i. any_row (λ r. r.enabled && str_eq r.id i) rows) (sym same_id)
            ∙ update_row-disabled off s.provider_rows refl)
          refl in
      ap (λ (t : State). t.registry.providers id) is
      ∙ ap
          (λ o.
            (elim o as (λ _. ProviderRegistry Provider) [
              | none ↦ s.registry
              | some g ↦ g
            ]).providers
              id)
          left
      ∙ gone

  -- A load fails where a row that is enabled cannot be made into a provider.
  reload-frozen :
      (s : State) (reads : Bool) (row : ProviderRow) (id : String)
      → select_by_id (λ r. r.id) id s.provider_rows ≡ some row
      → row.enabled ≡ true
      → instantiate (some (decrypt b64 gcm e)) create_provider row ≡ none
      → (reload_registry b64 gcm e reads s).registry ≡ s.registry
  unfolding reload_registry reload
  reload-frozen s false row id at on bad = refl
  reload-frozen s true row id at on bad =
      let bad_load =
        load_registry-fails (some (decrypt b64 gcm e)) create_provider (catalogue_of true s)
          s.provider_rows refl
          (build_providers-fails (some (decrypt b64 gcm e)) create_provider s.provider_rows
            (λ _. none) row id at on bad) in
      ap (λ o. elim o as (λ _. ProviderRegistry Provider) [ none ↦ s.registry | some g ↦ g ])
        bad_load

  -- A Create whose name is given and free and whose credentials can be encrypted is accepted.
  create-accepted :
      (s : State) (reads : Bool) (randoms : ℕ → Option Bytes) (id : String)
      (req : CreateProviderRequest) (cs : List (String × Credential))
      → req.type ≡ "openai"
      → str_eq req.name "" ≡ false
      → encrypt_all b64 gcm e randoms req.credentials ≡ encrypted cs
      → any_row (conflicts (new_row b64 gcm e id req cs)) s.provider_rows ≡ false
      → (create b64 gcm e s replied reads randoms id (some req)).1 ≡ 201
  unfolding create create_row
  create-accepted s reads randoms id req cs openai named sealed free =
      let good : (str_eq req.name "" || str_eq req.type "" || not (is_provider_type req.type))
          ≡ false =
        rw named (ap (λ t. str_eq t "" || not (is_provider_type t)) openai) in
      let go = λ (c : List (String × Credential)).
        answer_insert b64 gcm e reads s
          (create_row s.provider_rows replied (new_row b64 gcm e id req c)) in
      ap (λ (o : State × ℕ). o.1) (if-false _ _ good)
      ∙ ap (λ o. (with_encrypted s go o).1) sealed
      ∙ ap (λ (o : List ProviderRow × Inserted). (answer_insert b64 gcm e reads s o).1)
          (if-false _ _ free)

  -- Create answers 201 to an enabled OpenAI provider without an API key among its credentials,
  -- where its name is given and free, its credentials can be encrypted and the INSERT works. The
  -- reload of the Create leaves the registry as it was, and so does any reload of tables in which
  -- the row with that ID is the one that the Create left.
  pub create-frozen :
      (s t : State) (reads again : Bool) (randoms : ℕ → Option Bytes) (id : String)
      (req : CreateProviderRequest) (cs : List (String × Credential))
      → req.type ≡ "openai"
      → req.enabled ≡ true
      → entry_of (texts req.credentials) "api_key" ≡ ""
      → str_eq req.name "" ≡ false
      → encrypt_all b64 gcm e randoms req.credentials ≡ encrypted cs
      → any_row (conflicts (new_row b64 gcm e id req cs)) s.provider_rows ≡ false
      → select_by_id (λ r. r.id) id t.provider_rows
        ≡ select_by_id
            (λ r. r.id)
            id
            (create b64 gcm e s replied reads randoms id (some req)).0.provider_rows
      → ((create b64 gcm e s replied reads randoms id (some req)).1 ≡ 201)
        × ((create b64 gcm e s replied reads randoms id (some req)).0.registry ≡ s.registry)
        × ((reload_registry b64 gcm e again t).registry ≡ t.registry)
  unfolding has_role contains
  create-frozen s t reads again randoms id req cs openai on keyless named sealed free same =
      let s' = (create b64 gcm e s replied reads randoms id (some req)).0 in
      let accepted = create-accepted s reads randoms id req cs openai named sealed free in
      let made : create b64 gcm e s replied reads randoms id (some req) ≡ (s', 201) =
        ap (λ n. (s', n)) accepted in
      let (row, at, (type, enabled, config), back, detail, got, shown) =
        create-IsStored b64 gcm e s s' replied reads randoms id req (role_admin ∷ []) made refl in
      let bad : instantiate (some (decrypt b64 gcm e)) create_provider row ≡ none =
        instantiate-fails (some (decrypt b64 gcm e)) create_provider row (texts req.credentials)
          back
          ((create_provider_iff row (texts req.credentials)).1 (inl (type ∙ openai, keyless))) in
      (
        accepted,
        ap (λ (t : State). t.registry)
              (create-reloads b64 gcm e s s' replied reads randoms id req made)
            ∙ reload-frozen (record s { provider_rows = s'.provider_rows }) reads row id at
                (enabled ∙ on) bad,
        reload-frozen t again row id (same ∙ at) (enabled ∙ on) bad,
      )
