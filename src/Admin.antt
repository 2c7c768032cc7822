-- ===== src/Admin.antt =====
-- The admin API behind its routes: the tables of llm_gateway/internal/storage that it manages and
-- the provider registry. The handlers of llm_gateway/internal/httpapi are in the modules below.
-- A Link says how a statement that writes fares, a Bool whether a query works. Times are left out.
pub mod Providers
pub mod Aliases
pub mod Pages
mod Tests
use think_pixel_llmgw.Prelude.{
  String, str_eq, Bool, true, false, ◌||◌, Option, none, some, List, [], ◌∷◌, ◌++◌, if◌then◌else◌,
}
use think_pixel_llmgw.Encryption.{Aead, Base64, Encryption, decrypt}
use think_pixel_llmgw.Registry.{
  ProviderRow, AliasRow, ModelRow, ProviderRegistry, Catalogue, reload,
}
use think_pixel_llmgw.Keys.Tables.{TagRow}
use think_pixel_llmgw.Rows.{select_by_id}
use think_pixel_llmgw.Providers.{Provider, create_provider}

-- What the handlers share: the tables, and the gateway's registry. A row of model_alias_tags is a
-- TagRow with the alias's ID in place of the key's.
pub record State : Type 0 where
  pub provider_rows : List ProviderRow
  pub alias_rows : List AliasRow
  pub alias_tags : List TagRow
  pub model_rows : List ModelRow
  pub registry : ProviderRegistry Provider

abbrev pub readable {ℓ} : {A : Type ℓ} → Bool → A → Option A
readable true a = some a
readable false a = none

abbrev pub catalogue_of : Bool → State → Catalogue
catalogue_of reads s = record {
  provider_rows = readable reads s.provider_rows;
  alias_rows = readable reads s.alias_rows;
  model_rows = readable reads s.model_rows;
  model_by_id = λ id. select_by_id (λ m. m.id) id s.model_rows;
}

module _ (b64 : Base64) (gcm : Aead) (e : Encryption) where
  -- h.registry.Reload, whose error the handlers ignore; the Bool says whether it can read the tables.
  unfoldable pub reload_registry : Bool → State → State
  reload_registry reads s = record s {
    registry = reload (some (decrypt b64 gcm e)) create_provider (catalogue_of reads s) s.registry;
  }
