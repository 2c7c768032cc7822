-- ===== src/Admin/Providers.antt =====
-- The providers' table, llm_gateway/internal/storage/provider_repository.go, and its handlers,
-- llm_gateway/internal/httpapi/admin_providers_handler.go.
pub mod Credentials
pub mod Disabled
use think_pixel_llmgw.Prelude.{
  ℕ, zero, suc, String, str_eq, Bool, true, false, ◌&&◌, ◌||◌, not, Option, none, some, List, [],
  ◌∷◌, ◌++◌, length, if◌then◌else◌,
}
use think_pixel_llmgw.Redis.{Link, replied, refused, reply_lost}
use think_pixel_llmgw.Encryption.{Bytes, Aead, Base64, Encryption, encrypt, decrypt}
use think_pixel_llmgw.Auth.{role_admin, has_role}
use think_pixel_llmgw.Registry.{ProviderRow, Credential, text, other, ModelRow}
use think_pixel_llmgw.Rows.{
  select_first, any_row, filter_rows, select_by_id, update_row, delete_row, wrote,
}
use think_pixel_llmgw.Admin.{State, reload_registry}

pub record CreateProviderRequest : Type 0 where
  pub name : String
  pub display_name : String
  pub type : String
  pub credentials : List (String × Credential)
  pub config : List (String × Credential)
  pub enabled : Bool

pub record UpdateProviderRequest : Type 0 where
  pub display_name : Option String
  pub credentials : Option (List (String × Credential))
  pub config : Option (List (String × Credential))
  pub enabled : Option Bool

-- The details of a provider; the credentials are `none` where the answer has none.
pub record ProviderDetail : Type 0 where
  pub row : ProviderRow
  pub credentials : Option (List (String × String))
  pub models : List ModelRow

pub data Found : Type 0 where
  found : ProviderRow → Found
  missing : Found
  query_failed : Found

abbrev pub as_found : Option ProviderRow → Found
as_found none = missing
as_found (some row) = found row

-- The repository. The names and the IDs of the table are unique.
unfoldable pub get_by_name : List ProviderRow → Bool → String → Found
get_by_name rows works name =
    if works then as_found (select_first (λ row. str_eq row.name name) rows) else query_failed

unfoldable pub get_by_id : List ProviderRow → Bool → String → Found
get_by_id rows works id =
    if works then as_found (select_by_id (λ row. row.id) id rows) else query_failed

abbrev pub conflicts : ProviderRow → ProviderRow → Bool
conflicts new row = str_eq row.id new.id || str_eq row.name new.name

-- What Create returns: nil, an error that says "duplicate" or "unique", or another error.
pub data Inserted : Type 0 where
  inserted : Inserted
  duplicate : Inserted
  insert_failed : Inserted

abbrev pub insert_of : Bool → Inserted
insert_of true = inserted
insert_of false = insert_failed

unfoldable pub create_row : List ProviderRow → Link → ProviderRow → List ProviderRow × Inserted
create_row rows refused new = (rows, insert_failed)
create_row rows replied new =
    if any_row (conflicts new) rows then (rows, duplicate) else (rows ++ new ∷ [], inserted)
create_row rows reply_lost new =
    if any_row (conflicts new) rows
    then (rows, insert_failed)
    else (rows ++ new ∷ [], insert_failed)

-- The result says whether nil is returned; a name that another row has is refused by the table.
unfoldable pub update : List ProviderRow → Link → ProviderRow → List ProviderRow × Bool
update rows link row =
    if any_row (λ r. str_eq r.id row.id) rows
      && not (any_row (λ r. not (str_eq r.id row.id) && str_eq r.name row.name) rows)
    then wrote rows (update_row (λ r. r.id) row rows) link
    else (rows, false)

unfoldable pub delete : List ProviderRow → Link → String → List ProviderRow × Bool
delete rows link id =
    if any_row (λ r. str_eq r.id id) rows
    then wrote rows (delete_row (λ r. r.id) id rows) link
    else (rows, false)

abbrev pub is_provider_type : String → Bool
is_provider_type t = str_eq t "openai" || str_eq t "vertexai" || str_eq t "bedrock"

-- The loop over the credentials of a request.
pub data Encrypted : Type 0 where
  encrypted : List (String × Credential) → Encrypted
  not_a_text : Encrypted
  encrypt_failed : Encrypted

abbrev pub encrypted_cons : String → Option String → Encrypted → Encrypted
encrypted_cons key none rest = encrypt_failed
encrypted_cons key (some c) (encrypted cs) = encrypted ((key, text c) ∷ cs)
encrypted_cons key (some c) not_a_text = not_a_text
encrypted_cons key (some c) encrypt_failed = encrypt_failed

-- What a handler answers on each result of the loop.
abbrev pub with_encrypted {ℓ} :
    {S : Type ℓ} → S → (List (String × Credential) → S × ℕ) → Encrypted → S × ℕ
with_encrypted s go (encrypted cs) = go cs
with_encrypted s go not_a_text = (s, 400)
with_encrypted s go encrypt_failed = (s, 500)

-- What a handler does with the provider of the path; the ID is `none` where it does not parse.
abbrev pub with_found {ℓ} : {S : Type ℓ} → S → (ProviderRow → S × ℕ) → Found → S × ℕ
with_found s go (found row) = go row
with_found s go missing = (s, 404)
with_found s go query_failed = (s, 500)

abbrev pub field_or {ℓ} : {A : Type ℓ} → A → Option A → A
field_or a none = a
field_or a (some b) = b

module _ (b64 : Base64) (gcm : Aead) (e : Encryption) where
  -- Each value is encrypted with random bytes of its own.
  unfoldable pub encrypt_all : (ℕ → Option Bytes) → List (String × Credential) → Encrypted
  encrypt_all randoms [] = encrypted []
  encrypt_all randoms ((key, other) ∷ more) = not_a_text
  encrypt_all randoms ((key, text plain) ∷ more) =
      encrypted_cons key (encrypt b64 gcm e (randoms 0) plain)
        (encrypt_all (λ n. randoms (suc n)) more)

  abbrev pub answer_insert : Bool → State → List ProviderRow × Inserted → State × ℕ
  answer_insert reads s (rows, inserted) =
      (reload_registry b64 gcm e reads (record s { provider_rows = rows }), 201)
  answer_insert reads s (rows, duplicate) = (record s { provider_rows = rows }, 409)
  answer_insert reads s (rows, insert_failed) = (record s { provider_rows = rows }, 500)

  abbrev pub new_row : String → CreateProviderRequest → List (String × Credential) → ProviderRow
  new_row id req cs = record {
    id = id;
    name = req.name;
    display_name = req.display_name;
    provider_type = req.type;
    config = req.config;
    encrypted_credentials = cs;
    enabled = req.enabled;
  }

  -- `none` is a body that does not decode; `id` is uuid.New().
  unfoldable pub create :
      State → Link → Bool → (ℕ → Option Bytes) → String → Option CreateProviderRequest → State × ℕ
  unfolding encrypt_all create_row
  create s link reads randoms id none = (s, 400)
  create s link reads randoms id (some req) =
      if str_eq req.name "" || str_eq req.type "" || not (is_provider_type req.type)
      then (s, 400)
      else with_encrypted s
          (λ cs. answer_insert reads s (create_row s.provider_rows link (new_row id req cs)))
          (encrypt_all randoms req.credentials)

  abbrev pub answer_update : Bool → State → List ProviderRow × Bool → State × ℕ
  answer_update reads s (rows, true) =
      (reload_registry b64 gcm e reads (record s { provider_rows = rows }), 200)
  answer_update reads s (rows, false) = (record s { provider_rows = rows }, 500)

  abbrev pub changed_row :
      ProviderRow → UpdateProviderRequest → List (String × Credential) → ProviderRow
  changed_row row req cs = record row {
    display_name = field_or row.display_name req.display_name;
    config = field_or row.config req.config;
    enabled = field_or row.enabled req.enabled;
    encrypted_credentials = cs;
  }

  abbrev pub encrypt_given :
      (ℕ → Option Bytes) → ProviderRow → Option (List (String × Credential)) → Encrypted
  encrypt_given randoms row none = encrypted row.encrypted_credentials
  encrypt_given randoms row (some cs) = encrypt_all randoms cs

  -- Update, behind the parsing of the path and the body.
  unfoldable pub update_provider :
      State → Bool → Link → Bool → (ℕ → Option Bytes) → String → UpdateProviderRequest → State × ℕ
  unfolding encrypt_all get_by_id update
  update_provider s works link reads randoms id req =
      with_found s
        (λ row.
          with_encrypted s
            (λ cs. answer_update reads s (update s.provider_rows link (changed_row row req cs)))
            (encrypt_given randoms row req.credentials))
        (get_by_id s.provider_rows works id)

  -- Delete, which disables the provider, behind the parsing of the path.
  unfoldable pub delete_provider : State → Bool → Link → Bool → String → State × ℕ
  unfolding get_by_id update
  delete_provider s works link reads id =
      with_found s
        (λ row.
          answer_update reads s (update s.provider_rows link (record row { enabled = false })))
        (get_by_id s.provider_rows works id)

  -- The credentials that decrypt; the others are left out.
  abbrev pub decrypted_cons :
      String → Option String → List (String × String) → List (String × String)
  decrypted_cons key none rest = rest
  decrypted_cons key (some plain) rest = (key, plain) ∷ rest

  unfoldable pub decrypt_shown : List (String × Credential) → List (String × String)
  decrypt_shown [] = []
  decrypt_shown ((key, other) ∷ more) = decrypt_shown more
  decrypt_shown ((key, text c) ∷ more) =
      decrypted_cons key (decrypt b64 gcm e c) (decrypt_shown more)

  abbrev pub detail_of : List String → List ModelRow → Found → Option ProviderDetail
  detail_of roles models missing = none
  detail_of roles models query_failed = none
  detail_of roles models (found row) = some (record {
    row = row;
    credentials =
        if has_role (some roles) role_admin
        then some (decrypt_shown row.encrypted_credentials)
        else none;
    models = filter_rows (λ m. str_eq m.provider_id row.id) models;
  })

  -- GetByID for claims with these roles, behind the parsing of the path; `none` is an error.
  unfoldable pub get_provider : State → Bool → List String → String → Option ProviderDetail
  unfolding decrypt_shown get_by_id
  get_provider s works roles id = detail_of roles s.model_rows (get_by_id s.provider_rows works id)
