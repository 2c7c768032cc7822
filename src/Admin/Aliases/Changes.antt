-- ===== src/Admin/Aliases/Changes.antt =====
-- Update and Delete of llm_gateway/internal/httpapi/admin_aliases_handler.go, behind the parsing of
-- the path and the body.
use think_pixel_llmgw.Prelude.{
  ℕ, String, str_eq, Bool, true, false, ◌&&◌, not, Option, none, some, List, [], if◌then◌else◌,
}
use think_pixel_llmgw.Redis.{Link}
use think_pixel_llmgw.Encryption.{Aead, Base64, Encryption}
use think_pixel_llmgw.Registry.{ProviderRow, AliasRow, ModelRow}
use think_pixel_llmgw.Rows.{select_by_id}
use think_pixel_llmgw.Admin.{State, reload_registry}
use think_pixel_llmgw.Admin.Aliases.{
  GivenId, empty_id, malformed_id, parsed_id, UpdateAliasRequest, field_or, set_tags, update,
  delete,
}

-- A step of Update: the alias goes on, or the handler answers.
pub data Checked : Type 0 where
  go_on : AliasRow → Checked
  answer : ℕ → Checked

abbrev pub nil_uuid : String
nil_uuid = "00000000-0000-0000-0000-000000000000"

abbrev pub with_target : AliasRow → Bool → Option ModelRow → Checked
with_target row provider_given none = answer 404
with_target row provider_given (some model) =
    if not provider_given && not (str_eq model.provider_id (field_or nil_uuid row.provider_id))
    then answer 400
    else go_on (record row { target_model_id = model.id })

abbrev pub check_target : List ModelRow → AliasRow → Bool → Option GivenId → Checked
check_target models row provider_given none = go_on row
check_target models row provider_given (some (parsed_id id)) =
    with_target row provider_given (select_by_id (λ m. m.id) id models)
check_target models row provider_given (some empty_id) = answer 400
check_target models row provider_given (some malformed_id) = answer 400

abbrev pub with_provider : AliasRow → Option ProviderRow → Checked
with_provider row none = answer 404
with_provider row (some provider) =
    if not provider.enabled
    then answer 400
    else go_on (record row { provider_id = some provider.id })

abbrev pub check_provider : List ProviderRow → Option GivenId → Checked → Checked
check_provider providers given (answer status) = answer status
check_provider providers none (go_on row) = go_on row
check_provider providers (some (parsed_id id)) (go_on row) =
    with_provider row (select_by_id (λ p. p.id) id providers)
check_provider providers (some empty_id) (go_on row) = answer 400
check_provider providers (some malformed_id) (go_on row) = answer 400

abbrev pub is_given : Option GivenId → Bool
is_given none = false
is_given (some id) = true

abbrev pub tags_of : Option (List (String × String)) → List (String × String)
tags_of none = []
tags_of (some tags) = tags

module _ (b64 : Base64) (gcm : Aead) (e : Encryption) where
  -- The reload of Update and Delete is a goroutine; the Bool says whether it can read the tables.
  abbrev pub after_update :
      Bool → List Link → UpdateAliasRequest → String → State → List AliasRow × Bool → State × ℕ
  after_update reads links req id s (rows, false) = (record s { alias_rows = rows }, 500)
  after_update reads links req id s (rows, true) =
      let (tag_rows, ok) = set_tags s.alias_tags links id (tags_of req.tags) in
      let left : State = record s { alias_rows = rows; alias_tags = tag_rows } in
      if ok then (reload_registry b64 gcm e reads left, 200) else (left, 500)

  abbrev pub update_checked :
      State → Link → List Link → Bool → UpdateAliasRequest → Checked → State × ℕ
  update_checked s link links reads req (answer status) = (s, status)
  update_checked s link links reads req (go_on row) =
      after_update reads links req row.id s
        (update s.alias_rows link (record row { enabled = field_or row.enabled req.enabled }))

  abbrev pub update_found :
      State → Link → List Link → Bool → UpdateAliasRequest → Option AliasRow → State × ℕ
  update_found s link links reads req none = (s, 404)
  update_found s link links reads req (some row) = update_checked s link links reads req (
      check_provider s.provider_rows req.provider_id (
        check_target s.model_rows (record row { alias = field_or row.alias req.alias_name })
          (is_given req.provider_id) req.target_model_id))

  -- AdminAliasesHandler.Update, where the queries before the UPDATE work.
  unfoldable pub update_alias :
      State → Link → List Link → Bool → String → UpdateAliasRequest → State × ℕ
  unfolding update set_tags
  update_alias s link links reads id req =
      update_found s link links reads req (select_by_id (λ a. a.id) id s.alias_rows)

  abbrev pub after_delete : Bool → State × Bool → State × ℕ
  after_delete reads (s, true) = (reload_registry b64 gcm e reads s, 204)
  after_delete reads (s, false) = (s, 500)

  abbrev pub delete_found : State → Link → Bool → String → Option AliasRow → State × ℕ
  delete_found s link reads id none = (s, 404)
  delete_found s link reads id (some row) = after_delete reads (delete s link id)

  -- AdminAliasesHandler.Delete, where the query before the DELETE works.
  unfoldable pub delete_alias : State → Link → Bool → String → State × ℕ
  unfolding delete
  delete_alias s link reads id =
      delete_found s link reads id (select_by_id (λ a. a.id) id s.alias_rows)
