-- ===== src/Admin/Aliases.antt =====
-- The aliases' table, llm_gateway/internal/storage/alias_repository.go, and its handlers,
-- llm_gateway/internal/httpapi/admin_aliases_handler.go, behind the parsing of the path and the
-- body. The custom configuration, which nothing reads, is left out.
pub mod Changes
pub mod Targets
use think_pixel_llmgw.Prelude.{
  ℕ, String, str_eq, Bool, true, false, ◌&&◌, ◌||◌, not, Option, none, some, List, [], ◌∷◌, ◌++◌,
  if◌then◌else◌,
}
use think_pixel_llmgw.Redis.{Link, replied, refused, reply_lost}
use think_pixel_llmgw.Encryption.{Aead, Base64, Encryption}
use think_pixel_llmgw.Keys.Tables.{TagRow, upsert_tag, remove_tag, load_tags, delete_tags}
use think_pixel_llmgw.Registry.{ProviderRow, AliasRow, ModelRow}
use think_pixel_llmgw.Rows.{select_first, any_row, select_by_id, update_row, delete_row, wrote}
use think_pixel_llmgw.Admin.{State, reload_registry}

-- IDs that are empty or do not parse are told apart.
pub data GivenId : Type 0 where
  empty_id : GivenId
  malformed_id : GivenId
  parsed_id : String → GivenId

pub record CreateAliasRequest : Type 0 where
  pub alias_name : String
  pub target_model_id : GivenId
  pub provider_id : GivenId
  pub enabled : Option Bool
  pub tags : List (String × String)

-- `Tags` is `none` where it is nil.
pub record UpdateAliasRequest : Type 0 where
  pub alias_name : Option String
  pub target_model_id : Option GivenId
  pub provider_id : Option GivenId
  pub enabled : Option Bool
  pub tags : Option (List (String × String))

-- An alias with its tags.
pub record ModelAlias : Type 0 where
  pub row : AliasRow
  pub tags : List (String × String)

abbrev pub with_tags : List TagRow → AliasRow → ModelAlias
with_tags tag_rows row = record { row = row; tags = load_tags tag_rows row.id }

abbrev pub tagged : List TagRow → Option AliasRow → Option ModelAlias
tagged tag_rows none = none
tagged tag_rows (some row) = some (with_tags tag_rows row)

-- The queries, on a database that works; `none` is ErrModelAliasNotFound.
unfoldable pub get_by_alias : State → String → Option ModelAlias
get_by_alias s alias =
    tagged s.alias_tags (select_first (λ a. str_eq a.alias alias && a.enabled) s.alias_rows)

unfoldable pub get_by_id : State → String → Option ModelAlias
get_by_id s id = tagged s.alias_tags (select_by_id (λ a. a.id) id s.alias_rows)

-- INSERT; the ID and the alias of the table are unique.
unfoldable pub create_row : List AliasRow → Link → AliasRow → List AliasRow × Bool
create_row rows link new =
    if any_row (λ a. str_eq a.id new.id || str_eq a.alias new.alias) rows
    then (rows, false)
    else wrote rows (rows ++ new ∷ []) link

unfoldable pub update : List AliasRow → Link → AliasRow → List AliasRow × Bool
update rows link row =
    if any_row (λ a. str_eq a.id row.id) rows
      && not (any_row (λ a. not (str_eq a.id row.id) && str_eq a.alias row.alias) rows)
    then wrote rows (update_row (λ a. a.id) row rows) link
    else (rows, false)

-- The tags of the alias go with it.
unfoldable pub delete : State → Link → String → State × Bool
delete s link id =
    if any_row (λ a. str_eq a.id id) s.alias_rows
    then wrote s
        (record s {
          alias_rows = delete_row (λ a. a.id) id s.alias_rows;
          alias_tags = delete_tags id s.alias_tags;
        })
        link
    else (s, false)

unfoldable pub set_tag : List TagRow → Link → String → String → String → List TagRow × Bool
set_tag rows link id key value = wrote rows (upsert_tag rows id key value) link

unfoldable pub delete_tag : List TagRow → Link → String → String → List TagRow × Bool
delete_tag rows link id key = wrote rows (remove_tag rows id key) link

-- How the next SetTag fares; those that are not listed are replied.
abbrev pub link_of : List Link → Link
link_of [] = replied
link_of (l ∷ ls) = l

abbrev pub links_after : List Link → List Link
links_after [] = []
links_after (l ∷ ls) = ls

-- The loop over the tags of a request, with how each SetTag fares; the first error ends it.
unfoldable pub set_tags :
    List TagRow → List Link → String → List (String × String) → List TagRow × Bool
unfolding set_tag
set_tags rows links id [] = (rows, true)
set_tags rows links id ((key, value) ∷ more) =
    let (rows', ok) = set_tag rows (link_of links) id key value in
    let rest = set_tags rows' (links_after links) id more in if ok then rest else (rows', false)

abbrev pub or_true : Option Bool → Bool
or_true none = true
or_true (some b) = b

abbrev pub field_or {ℓ} : {A : Type ℓ} → A → Option A → A
field_or a none = a
field_or a (some b) = b

abbrev pub after_tags : State → ℕ → List TagRow × Bool → State × ℕ
after_tags s status (rows, true) = (record s { alias_tags = rows }, status)
after_tags s status (rows, false) = (record s { alias_tags = rows }, 500)

abbrev pub after_create :
    List Link → CreateAliasRequest → String → State → List AliasRow × Bool → State × ℕ
after_create links req id s (rows, false) = (record s { alias_rows = rows }, 500)
after_create links req id s (rows, true) =
    after_tags (record s { alias_rows = rows }) 201 (set_tags s.alias_tags links id req.tags)

-- Create from the check of the provider on, with the target model.
abbrev pub create_for :
    State
    → Link
    → List Link
    → String
    → CreateAliasRequest
    → ModelRow
    → Option ProviderRow
    → State × ℕ
create_for s link links id req model none = (s, 404)
create_for s link links id req model (some provider) =
    if not provider.enabled || not (str_eq model.provider_id provider.id)
    then (s, 400)
    else after_create links req id s (
        create_row s.alias_rows link (record {
          id = id;
          alias = req.alias_name;
          target_model_id = model.id;
          provider_id = some provider.id;
          enabled = or_true req.enabled;
        }))

abbrev pub create_with :
    State → Link → List Link → String → CreateAliasRequest → Option ModelRow → String → State × ℕ
create_with s link links id req none provider_id = (s, 404)
create_with s link links id req (some model) provider_id =
    create_for s link links id req model (select_by_id (λ p. p.id) provider_id s.provider_rows)

abbrev pub create_parsed :
    State → Link → List Link → String → CreateAliasRequest → GivenId → GivenId → State × ℕ
create_parsed s link links id req (parsed_id target) (parsed_id provider) =
    create_with s link links id req (select_by_id (λ m. m.id) target s.model_rows) provider
create_parsed s link links id req (parsed_id target) empty_id = (s, 400)
create_parsed s link links id req (parsed_id target) malformed_id = (s, 400)
create_parsed s link links id req empty_id provider = (s, 400)
create_parsed s link links id req malformed_id provider = (s, 400)

-- AdminAliasesHandler.Create, where the queries before the INSERT work. It does not reload.
unfoldable pub create : State → Link → List Link → String → CreateAliasRequest → State × ℕ
unfolding create_row set_tags
create s link links id req =
    if str_eq req.alias_name ""
    then (s, 400)
    else create_parsed s link links id req req.target_model_id req.provider_id
