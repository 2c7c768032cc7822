-- ===== src/Admin/Pages.antt =====
-- The lists of the admin API: the pagination of its handlers, and ListWithFilters of
-- llm_gateway/internal/storage/provider_repository.go and alias_repository.go. ILIKE and ORDER BY of the
-- database are parameters.
pub mod Cover
mod Tests
use think_pixel_llmgw.Prelude.{
  ℕ, zero, suc, ◌-◌, ◌*◌, String, str_eq, Bool, true, false, ◌&&◌, ◌||◌, ◌==◌, leb, Option, none,
  some, List, [], ◌∷◌, length, take, drop, ℤ, pos, negsuc, is_pos, to_ℕ, mul_int, if◌then◌else◌,
}
use think_pixel_llmgw.Keys.Tables.{TagRow}
use think_pixel_llmgw.Registry.{ProviderRow, AliasRow}
use think_pixel_llmgw.Rows.{any_row, filter_rows}

-- A query parameter as strconv.Atoi reads it; `none` is one that is missing or no number.
unfoldable pub page_of : Option ℤ → ℕ
page_of none = 1
page_of (some p) = if is_pos p then to_ℕ p else 1

unfoldable pub page_size_of : Option ℤ → ℕ
page_size_of none = 20
page_size_of (some ps) = if is_pos ps && leb (to_ℕ ps) 100 then to_ℕ ps else 20

-- A list of one page, with the count of all the rows that match.
pub record Page {ℓ} (A : Type ℓ) : Type ℓ where
  pub items : List A
  pub total_count : ℕ
  pub page : ℕ
  pub page_size : ℕ

module _ {ℓ} {A : Type ℓ} where
  abbrev pub window : ℤ → ℕ → List A → Option (List A)
  window (pos offset) size rows = some (take size (drop offset rows))
  window (negsuc offset) size rows = none

  -- LIMIT size OFFSET (page - 1) * size, which is an error for a negative offset.
  unfoldable pub select_page : ℕ → ℕ → List A → Option (List A)
  select_page page size rows = window (mul_int (pos (page - 1)) size) size rows

  abbrev pub page_with : ℕ → ℕ → ℕ → Option (List A) → Option (Page A)
  page_with total page size none = none
  page_with total page size (some items) =
      some (record { items = items; total_count = total; page = page; page_size = size })

  -- The count and the page of the rows that match, in the order of the database.
  unfoldable pub list_matching : (List A → List A) → (A → Bool) → ℕ → ℕ → List A → Option (Page A)
  unfolding select_page
  list_matching order matching page size rows =
      let found = filter_rows matching rows in
      page_with (length found) page size (select_page page size (order found))

  -- List of the API keys, which counts only what it has read.
  abbrev pub counted : ℕ → ℕ → List A → Page A
  counted page size items = record {
    items = items;
    total_count = if length items == size then page * size else length items;
    page = page;
    page_size = size;
  }

  abbrev pub counted_some : ℕ → ℕ → Option (List A) → Option (Page A)
  counted_some page size none = none
  counted_some page size (some items) = some (counted page size items)

  unfoldable pub list_api_keys : (List A → List A) → Option ℤ → Option ℤ → List A → Option (Page A)
  unfolding select_page page_of page_size_of
  list_api_keys order page size rows =
      counted_some (page_of page) (page_size_of size)
        (select_page (page_of page) (page_size_of size) (order rows))

pub record ProviderListFilters : Type 0 where
  pub search : String
  pub enabled_only : Option Bool

abbrev pub bool_eq : Bool → Bool → Bool
bool_eq true b = b
bool_eq false true = false
bool_eq false false = true

abbrev pub is_enabled_as : Option Bool → Bool → Bool
is_enabled_as none b = true
is_enabled_as (some wanted) b = bool_eq b wanted

-- `contained pattern text` is `text ILIKE '%' || pattern || '%'`.
unfoldable pub matches_provider :
    (String → String → Bool) → ProviderListFilters → ProviderRow → Bool
matches_provider contained f row =
    (str_eq f.search "" || contained f.search row.name || contained f.search row.display_name)
    && is_enabled_as f.enabled_only row.enabled

pub record AliasListFilters : Type 0 where
  pub provider_id : String
  pub search : String
  pub tags : List (String × String)

abbrev pub has_id : Option String → String → Bool
has_id none id = false
has_id (some i) id = str_eq i id

-- EXISTS in model_alias_tags, for every tag.
unfoldable pub has_tags : List TagRow → String → List (String × String) → Bool
unfolding any_row
has_tags rows id [] = true
has_tags rows id ((key, value) ∷ more) =
    any_row (λ t. str_eq t.api_key_id id && str_eq t.key key && str_eq t.value value) rows
    && has_tags rows id more

unfoldable pub matches_alias :
    (String → String → Bool) → List TagRow → AliasListFilters → AliasRow → Bool
unfolding has_tags
matches_alias contained tag_rows f row =
    (str_eq f.provider_id "" || has_id row.provider_id f.provider_id)
    && (str_eq f.search "" || contained f.search row.alias)
    && has_tags tag_rows row.id f.tags

-- AdminProvidersHandler.List and AdminAliasesHandler.List; `none` is a query that fails.
unfoldable pub list_providers :
    (String → String → Bool)
    → (List ProviderRow → List ProviderRow)
    → ProviderListFilters
    → Option ℤ
    → Option ℤ
    → List ProviderRow
    → Option (Page ProviderRow)
unfolding list_matching matches_provider page_of page_size_of
list_providers contained order f page size rows =
    list_matching order (matches_provider contained f) (page_of page) (page_size_of size) rows

unfoldable pub list_aliases :
    (String → String → Bool)
    → (List AliasRow → List AliasRow)
    → List TagRow
    → AliasListFilters
    → Option ℤ
    → Option ℤ
    → List AliasRow
    → Option (Page AliasRow)
unfolding list_matching matches_alias page_of page_size_of
list_aliases contained order tag_rows f page size rows =
    list_matching order (matches_alias contained tag_rows f) (page_of page) (page_size_of size) rows
