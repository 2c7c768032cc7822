-- ===== src/Admin/Pages/Tests.antt =====
-- The pages of a list of two providers.
use think_pixel_llmgw.Prelude.{
  ℕ, true, false, some, List, [], ◌∷◌, ◌≡◌, ◌*◌, ◌≤◌, refl, arith, length, pos, mul_int,
}
use think_pixel_llmgw.Registry.{ProviderRow}
use think_pixel_llmgw.Rows.{filter_rows}
use think_pixel_llmgw.Admin.Pages.{
  ProviderListFilters, matches_provider, list_api_keys, select_page,
}
use think_pixel_llmgw.Admin.Pages.Cover.{items_to, items_to-all}

abbrev openai_row : ProviderRow
openai_row = record {
  id = "p1";
  name = "openai";
  display_name = "OpenAI";
  provider_type = "openai";
  config = [];
  encrypted_credentials = [];
  enabled = true;
}

abbrev by_name : ProviderListFilters
by_name = record { search = "open"; enabled_only = some true }

abbrev listed : List ProviderRow
listed = openai_row ∷ record openai_row { id = "p0"; enabled = false } ∷ []

few_test : length (filter_rows (matches_provider (λ p s. true) by_name) listed) ≤ 2 * 1
unfolding filter_rows matches_provider
few_test = omega arith

items_to-all_example :
    items_to (λ l. l) (matches_provider (λ p s. true) by_name) 2 1 listed
    ≡ filter_rows (matches_provider (λ p s. true) by_name) listed
items_to-all_example =
    items_to-all (λ l. l) (matches_provider (λ p s. true) by_name) 2 1 listed (omega arith) few_test

-- The second page of three keys, two to a page, says that there is one key.
count_test :
    list_api_keys {A = ℕ} (λ l. l) (some (pos 2)) (some (pos 2)) (1 ∷ 2 ∷ 3 ∷ [])
    ≡ some (record { items = 3 ∷ []; total_count = 1; page = 2; page_size = 2 })
unfolding list_api_keys select_page mul_int
count_test = refl
