-- ===== src/Rows.antt =====
-- Tables as lists of rows with an ID (`row_id` gives it), and what the statements of the
-- repositories do to them. The database is not in this repository.
use think_pixel_llmgw.Prelude.{
  String, str_eq, eq_iff, Bool, true, false, ◌||◌, Option, none, some, List, [], ◌∷◌, ◌++◌,
  if◌then◌else◌, ◌≡◌, refl, sym, ap, ◌∙◌, arith, Bool-cases, inl, inr,
}
use think_pixel_llmgw.Redis.{Link, replied, refused, reply_lost}

module _ {ℓ} {A : Type ℓ} where
  -- The first row of which `p` holds.
  unfoldable pub select_first : (A → Bool) → List A → Option A
  select_first p [] = none
  select_first p (a ∷ more) = if p a then some a else select_first p more

  unfoldable pub any_row : (A → Bool) → List A → Bool
  any_row p [] = false
  any_row p (a ∷ more) = p a || any_row p more

  unfoldable pub filter_rows : (A → Bool) → List A → List A
  filter_rows p [] = []
  filter_rows p (a ∷ more) = let rest = filter_rows p more in if p a then a ∷ rest else rest

  pub select_first-append :
      (p : A → Bool) (xs ys : List A)
      → any_row p xs ≡ false
      → select_first p (xs ++ ys) ≡ select_first p ys
  unfolding select_first any_row
  select_first-append p [] ys e = refl
  select_first-append p (a ∷ more) ys e = elim (Bool-cases (p a)) [
    | inl yes_ ↦ ground (arith, yes_, e)
    | inr no_ ↦ rw no_ (select_first-append p more ys (ground (arith, no_, e)))
  ]

module _ {ℓ} {A : Type ℓ} (row_id : A → String) where
  -- WHERE id = $1
  unfoldable pub select_by_id : String → List A → Option A
  unfolding select_first
  select_by_id id rows = select_first (λ a. str_eq (row_id a) id) rows

  -- UPDATE ... WHERE id = the row's id
  unfoldable pub update_row : A → List A → List A
  update_row row [] = []
  update_row row (a ∷ more) =
      (if str_eq (row_id a) (row_id row) then row else a) ∷ update_row row more

  -- DELETE ... WHERE id = $1
  unfoldable pub delete_row : String → List A → List A
  delete_row id [] = []
  delete_row id (a ∷ more) =
      let rest = delete_row id more in if str_eq (row_id a) id then rest else a ∷ rest

  -- A row that is updated is the one found under its ID, and no other row changes.
  pub select_by_id-update_row :
      (row : A) (id : String) (rows : List A)
      → select_by_id id (update_row row rows) ≡ (
          if str_eq (row_id row) id
          then (if any_row (λ a. str_eq (row_id a) id) rows then some row else none)
          else select_by_id id rows)
  unfolding select_by_id update_row select_first any_row
  select_by_id-update_row row id [] = elim (Bool-cases (str_eq (row_id row) id)) [
    | inl e ↦ rw e refl
    | inr e ↦ rw e refl
  ]
  select_by_id-update_row row id (a ∷ more) = ground (
    arith,
    select_by_id-update_row row id more,
    eq_iff (row_id row) id,
    eq_iff (row_id a) id,
    eq_iff (row_id a) (row_id row),
  )

  pub select_by_id-delete_row :
      (id j : String) (rows : List A)
      → select_by_id j (delete_row id rows) ≡ (if str_eq id j then none else select_by_id j rows)
  unfolding select_by_id delete_row select_first
  select_by_id-delete_row id j [] = elim (Bool-cases (str_eq id j)) [
    | inl e ↦ rw e refl
    | inr e ↦ rw e refl
  ]
  select_by_id-delete_row id j (a ∷ more) = ground (
    arith,
    select_by_id-delete_row id j more,
    eq_iff (row_id a) id,
    eq_iff (row_id a) j,
    eq_iff id j,
  )

-- The state after a statement that would leave `after`, with whether nil is returned.
abbrev pub wrote {ℓ} : {A : Type ℓ} → A → A → Link → A × Bool
wrote before after replied = (after, true)
wrote before after refused = (before, false)
wrote before after reply_lost = (after, false)

pub any_row-weaken {ℓ} :
    {A : Type ℓ} (p q : A → Bool) (rows : List A)
    → ((a : A) → q a ≡ true → p a ≡ true)
    → any_row p rows ≡ false
    → any_row q rows ≡ false
unfolding any_row
any_row-weaken p q [] implies none_ = refl
any_row-weaken p q (a ∷ more) implies none_ =
    ground (arith, implies a, none_, any_row-weaken p q more implies (ground (arith, none_)))

-- What is found under an ID has it.
pub select_by_id-row_id {ℓ} :
    {A : Type ℓ} (row_id : A → String) (id : String) (rows : List A) (row : A)
    → select_by_id row_id id rows ≡ some row
    → row_id row ≡ id
unfolding select_by_id select_first
select_by_id-row_id row_id id [] row at = ground (arith, at)
select_by_id-row_id row_id id (a ∷ more) row at = elim (Bool-cases (str_eq (row_id a) id)) [
  | inl here ↦
      let same : a ≡ row = ground (arith, here, at) in
      ap row_id (sym same) ∙ (eq_iff (row_id a) id).0 here
  | inr later ↦ select_by_id-row_id row_id id more row (ground (arith, later, at))
]
