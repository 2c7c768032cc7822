-- ===== src/Admin/Pages/Cover.antt =====
-- The pages of a list together are the list.
use think_pixel_llmgw.Prelude.{
  ℕ, zero, suc, ◌+◌, ◌-◌, ◌*◌, ◌^◌, ◌≤◌, ◌<◌, Bool, Option, none, some, List, [], ◌∷◌, ◌++◌, length,
  take, drop, pos, mul_int, mul_int-pos, ◌≡◌, sym, ap, ◌∙◌, arith, take-nil,
}
use think_pixel_llmgw.Rows.{filter_rows}
use think_pixel_llmgw.Admin.Pages.{Page, window, select_page, page_with, list_matching}

module _ {ℓ} {A : Type ℓ} where
  index : (m n : ℕ) (xs : List A) → m ≡ n → take m xs ≡ take n xs
  index m n xs e = ap (λ k. take k xs) e

  take_add : (m n : ℕ) (xs : List A) → take (m + n) xs ≡ take m xs ++ take n (drop m xs)
  take_add zero n xs = index (0 + n) n xs (omega arith)
  take_add (suc m) n [] = take-nil (suc m + n) ∙ sym (take-nil n)
  take_add (suc m) n (x ∷ xs) =
      index (suc m + n) (suc (m + n)) (x ∷ xs) (omega arith) ∙ ap (λ l. x ∷ l) (take_add m n xs)

  take_all : (n : ℕ) (xs : List A) → length xs ≤ n → take n xs ≡ xs
  take_all n [] few = take-nil n
  take_all zero (x ∷ xs) few = ground (arith, few)
  take_all (suc n) (x ∷ xs) few = ap (λ l. x ∷ l) (take_all n xs (omega (arith, few)))

  abbrev pub items_of : Option (Page A) → List A
  items_of none = []
  items_of (some p) = p.items

  -- The items of the pages 1 to n, one after the other.
  abbrev pub items_to : (List A → List A) → (A → Bool) → ℕ → ℕ → List A → List A
  items_to order matching zero size rows = []
  items_to order matching (suc n) size rows =
      items_to order matching n size rows
      ++ items_of (list_matching order matching (suc n) size rows)

  page_items :
      (order : List A → List A) (matching : A → Bool) (n size : ℕ) (rows : List A)
      → n * size < 2 ^ 63
      → items_of (list_matching order matching (suc n) size rows)
        ≡ take size (drop (n * size) (order (filter_rows matching rows)))
  unfolding list_matching select_page
  page_items order matching n size rows fits =
      let found = filter_rows matching rows in
      let exact : mul_int (pos (suc n - 1)) size ≡ pos (n * size) =
        ap (λ k. mul_int (pos k) size) (omega arith) ∙ mul_int-pos n size fits in
      ap (λ z. items_of (page_with (length found) (suc n) size (window z size (order found)))) exact

  items_to_lem :
      (order : List A → List A) (matching : A → Bool) (n size : ℕ) (rows : List A)
      → n * size < 2 ^ 63
      → items_to order matching n size rows ≡ take (n * size) (order (filter_rows matching rows))
  items_to_lem order matching zero size rows fits =
      sym (index (0 * size) 0 (order (filter_rows matching rows)) (omega arith))
  items_to_lem order matching (suc n) size rows fits =
      let l = order (filter_rows matching rows) in
      let more : suc n * size ≡ n * size + size = omega arith in
      let small : n * size < 2 ^ 63 = omega (arith, more, fits) in
      ap (λ k. k ++ items_of (list_matching order matching (suc n) size rows))
        (items_to_lem order matching n size rows small)
      ∙ ap (λ k. take (n * size) l ++ k) (page_items order matching n size rows small)
      ∙ sym (index (suc n * size) (n * size + size) l more ∙ take_add (n * size) size l)

  -- Enough pages of a list of the admin API are together the rows that match, in the database's
  -- order, each exactly as often as it is there, where the offsets fit 64 bits.
  pub items_to-all :
      (order : List A → List A) (matching : A → Bool) (n size : ℕ) (rows : List A)
      → n * size < 2 ^ 63
      → length (order (filter_rows matching rows)) ≤ n * size
      → items_to order matching n size rows ≡ order (filter_rows matching rows)
  items_to-all order matching n size rows fits enough =
      items_to_lem order matching n size rows fits
      ∙ take_all (n * size) (order (filter_rows matching rows)) enough
