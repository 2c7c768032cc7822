-- ===== src/Admin/Providers/Credentials.antt =====
-- Credentials come out of the table as they went in.
use think_pixel_llmgw.Prelude.{
  ℕ, suc, String, str_eq, eq_refl, Bool, true, ◌||◌, not, Option, none, some, List, [], ◌∷◌, ◌++◌,
  ◌≡◌, ◌∙◌, refl, sym, ap, arith, Bool-cases, inl, inr,
}
use think_pixel_llmgw.Redis.{Link, replied, refused, reply_lost}
use think_pixel_llmgw.Encryption.{Bytes, Aead, Base64, Encryption, encrypt, decrypt}
use think_pixel_llmgw.Encryption.Roundtrip.{decrypt-encrypt}
use think_pixel_llmgw.Auth.{role_admin, has_role}
use think_pixel_llmgw.Registry.{ProviderRow, Credential, text, other, decrypt_all, credentials}
use think_pixel_llmgw.Rows.{
  any_row, select_first, select_by_id, filter_rows, select_first-append, any_row-weaken,
}
use think_pixel_llmgw.Admin.{State, reload_registry}
use think_pixel_llmgw.Admin.Providers.{
  CreateProviderRequest, ProviderDetail, Encrypted, encrypted, not_a_text, encrypt_failed,
  encrypted_cons, encrypt_all, decrypt_shown, create, create_row, conflicts, Inserted, inserted,
  duplicate, insert_failed, new_row, is_provider_type, with_encrypted, answer_insert, get_provider,
  get_by_id,
}

-- The credentials that are texts.
abbrev pub texts : List (String × Credential) → List (String × String)
texts [] = []
texts ((key, text v) ∷ more) = (key, v) ∷ texts more
texts ((key, other) ∷ more) = texts more

module _ (b64 : Base64) (gcm : Aead) (e : Encryption) where
  cons-encrypted :
      (key : String) (c : Option String) (rest : Encrypted) (cs : List (String × Credential))
      → encrypted_cons key c rest ≡ encrypted cs
      → (v : String) × (more : List (String × Credential)) × (c ≡ some v)
        × (rest ≡ encrypted more)
        × (cs ≡ (key, text v) ∷ more)
  cons-encrypted key none rest cs made = ground (arith, made)
  cons-encrypted key (some v) (encrypted more) cs made = (v, more, refl, refl, ground (arith, made))
  cons-encrypted key (some v) not_a_text cs made = ground (arith, made)
  cons-encrypted key (some v) encrypt_failed cs made = ground (arith, made)

  back-cons :
      (key v plain : String) (more : List (String × Credential)) (ts : List (String × String))
      → decrypt b64 gcm e v ≡ some plain
      → decrypt_all (decrypt b64 gcm e) more ≡ some ts
      → decrypt_shown b64 gcm e more ≡ ts
      → (decrypt_all (decrypt b64 gcm e) ((key, text v) ∷ more) ≡ some ((key, plain) ∷ ts))
        × (decrypt_shown b64 gcm e ((key, text v) ∷ more) ≡ (key, plain) ∷ ts)
  unfolding decrypt_all decrypt_shown
  back-cons key v plain more ts opened back shown =
      (ground (arith, opened, back), ground (arith, opened, shown))

  -- What the loop encrypts, both loops that decrypt give back.
  encrypt_all-back :
      (randoms : ℕ → Option Bytes) (given cs : List (String × Credential))
      → encrypt_all b64 gcm e randoms given ≡ encrypted cs
      → (decrypt_all (decrypt b64 gcm e) cs ≡ some (texts given))
        × (decrypt_shown b64 gcm e cs ≡ texts given)
  unfolding encrypt_all decrypt_all decrypt_shown
  encrypt_all-back randoms [] cs made =
      let is : [] ≡ cs = ground (arith, made) in rw⁻¹ is (refl, refl)
  encrypt_all-back randoms ((key, other) ∷ given) cs made = ground (arith, made)
  encrypt_all-back randoms ((key, text plain) ∷ given) cs made =
      let (v, more, sealed, rest, is) =
        cons-encrypted key (encrypt b64 gcm e (randoms 0) plain)
          (encrypt_all b64 gcm e (λ n. randoms (suc n)) given) cs made in
      let (back, shown) = encrypt_all-back (λ n. randoms (suc n)) given more rest in
      let opened = decrypt-encrypt b64 gcm e (randoms 0) plain v sealed in
      let (all_back, all_shown) = back-cons key v plain more (texts given) opened back shown in
      (
        ap (decrypt_all (decrypt b64 gcm e)) is ∙ all_back,
        ap (decrypt_shown b64 gcm e) is ∙ all_shown,
      )

  -- A row that is inserted is found under its ID.
  create_row-found :
      (rows rows' : List ProviderRow) (link : Link) (new : ProviderRow)
      → create_row rows link new ≡ (rows', inserted)
      → select_by_id (λ r. r.id) new.id rows' ≡ some new
  unfolding create_row select_by_id select_first
  create_row-found rows rows' refused new done_ = ground (arith, done_)
  create_row-found rows rows' reply_lost new done_ =
      elim (Bool-cases (any_row (conflicts new) rows)) [
        | inl taken ↦ ground (arith, taken, done_)
        | inr free ↦ ground (arith, free, done_)
      ]
  create_row-found rows rows' replied new done_ = elim (Bool-cases (any_row (conflicts new) rows)) [
    | inl taken ↦ ground (arith, taken, done_)
    | inr free ↦
        let is : rows ++ new ∷ [] ≡ rows' = ground (arith, free, done_) in
        let fresh =
          any_row-weaken (conflicts new) (λ r. str_eq r.id new.id) rows
            (λ r same. ground (arith, same)) free in
        let found_here : select_first (λ r. str_eq r.id new.id) (new ∷ []) ≡ some new =
          ground (arith, eq_refl new.id) in
        rw⁻¹ is (select_first-append (λ r. str_eq r.id new.id) rows (new ∷ []) fresh ∙ found_here)
  ]

  -- An answer of 201 comes from an insert that worked, of a row with encrypted credentials.
  with_encrypted-created :
      (s s' : State) (go : List (String × Credential) → State × ℕ) (r : Encrypted)
      → with_encrypted s go r ≡ (s', 201)
      → (cs : List (String × Credential)) × (r ≡ encrypted cs) × (go cs ≡ (s', 201))
  with_encrypted-created s s' go (encrypted cs) made = (cs, refl, made)
  with_encrypted-created s s' go not_a_text made = ground (arith, made)
  with_encrypted-created s s' go encrypt_failed made = ground (arith, made)

  answer_insert-created :
      (reads : Bool) (s s' : State) (r : List ProviderRow × Inserted)
      → answer_insert b64 gcm e reads s r ≡ (s', 201)
      → (r ≡ (s'.provider_rows, inserted))
  unfolding reload_registry
  answer_insert-created reads s s' (rows, inserted) made =
      ap (λ (p : List ProviderRow). (p, inserted)) (ap (λ (p : State × ℕ). p.0.provider_rows) made)
  answer_insert-created reads s s' (rows, duplicate) made = ground (arith, made)
  answer_insert-created reads s s' (rows, insert_failed) made = ground (arith, made)

  answer_insert-reloads :
      (reads : Bool) (s s' : State) (r : List ProviderRow × Inserted)
      → answer_insert b64 gcm e reads s r ≡ (s', 201)
      → s' ≡ reload_registry b64 gcm e reads (record s { provider_rows = r.0 })
  answer_insert-reloads reads s s' (rows, inserted) made = ap (λ (p : State × ℕ). p.0) (sym made)
  answer_insert-reloads reads s s' (rows, duplicate) made = ground (arith, made)
  answer_insert-reloads reads s s' (rows, insert_failed) made = ground (arith, made)

  -- Where Create answers 201, its result is a reload from the new table.
  pub create-reloads :
      (s s' : State) (link : Link) (reads : Bool) (randoms : ℕ → Option Bytes) (id : String)
      (req : CreateProviderRequest)
      → create b64 gcm e s link reads randoms id (some req) ≡ (s', 201)
      → s' ≡ reload_registry b64 gcm e reads (record s { provider_rows = s'.provider_rows })
  unfolding create
  create-reloads s s' link reads randoms id req made =
      elim (Bool-cases
        (str_eq req.name "" || str_eq req.type "" || not (is_provider_type req.type))) [
          | inl bad ↦ ground (arith, bad, made)
          | inr good ↦
              let go = λ (cs : List (String × Credential)).
                answer_insert b64 gcm e reads s
                  (create_row s.provider_rows link (new_row b64 gcm e id req cs)) in
              let (cs, sealed, stored) =
                with_encrypted-created s s' go (encrypt_all b64 gcm e randoms req.credentials)
                  (ground (arith, good, made)) in
              let wrote_row = create_row s.provider_rows link (new_row b64 gcm e id req cs) in
              answer_insert-reloads reads s s' wrote_row stored
              ∙ ap
                  (λ (p : List ProviderRow × Inserted).
                    reload_registry b64 gcm e reads (record s { provider_rows = p.0 }))
                  (answer_insert-created reads s s' wrote_row stored)
        ]

  -- Where Create answers 201, the row is stored under the new ID with what the request says, a
  -- reload decrypts exactly the texts of the request's credentials from it, and so does GetByID
  -- for a user with the role admin.
  pub create-IsStored :
      (s s' : State) (link : Link) (reads : Bool) (randoms : ℕ → Option Bytes) (id : String)
      (req : CreateProviderRequest) (roles : List String)
      → create b64 gcm e s link reads randoms id (some req) ≡ (s', 201)
      → has_role (some roles) role_admin ≡ true
      → (row : ProviderRow) × (select_by_id (λ r. r.id) id s'.provider_rows ≡ some row)
        × ((row.provider_type ≡ req.type) × (row.enabled ≡ req.enabled) × (row.config ≡ req.config))
        × (credentials (some (decrypt b64 gcm e)) row.encrypted_credentials
            ≡ some (texts req.credentials))
        × (detail : ProviderDetail) × (get_provider b64 gcm e s' true roles id ≡ some detail)
        × (detail.credentials ≡ some (texts req.credentials))
  unfolding create credentials get_provider get_by_id
  create-IsStored s s' link reads randoms id req roles made admin =
      elim (Bool-cases
        (str_eq req.name "" || str_eq req.type "" || not (is_provider_type req.type))) [
          | inl bad ↦ ground (arith, bad, made)
          | inr good ↦
              let go = λ (cs : List (String × Credential)).
                answer_insert b64 gcm e reads s
                  (create_row s.provider_rows link (new_row b64 gcm e id req cs)) in
              let (cs, sealed, stored) =
                with_encrypted-created s s' go (encrypt_all b64 gcm e randoms req.credentials)
                  (ground (arith, good, made)) in
              let row = new_row b64 gcm e id req cs in
              let written =
                answer_insert-created reads s s' (create_row s.provider_rows link row) stored in
              let there = create_row-found s.provider_rows s'.provider_rows link row written in
              let (back, shown) = encrypt_all-back randoms req.credentials cs sealed in
              let detail : ProviderDetail = record {
                row = row;
                credentials = some (decrypt_shown b64 gcm e cs);
                models = filter_rows (λ m. str_eq m.provider_id row.id) s'.model_rows;
              } in
              (
                row,
                there,
                (refl, refl, refl),
                back,
                detail,
                rw (there, admin) refl,
                ap (λ t. some t) shown,
              )
        ]
