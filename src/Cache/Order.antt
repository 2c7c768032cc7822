-- ===== src/Cache/Order.antt =====
-- The doubly linked list of cache.go as a list of elements: what `unlink` and `deref` do where
-- keys and addresses are distinct.
use think_pixel_llmgw.Prelude.{
  ℕ, suc, ◌<◌, String, str_eq, eq_iff, ◌≡◌, refl, ap, false, Option, none, some, List, [], ◌∷◌,
  ◌++◌, eq_refl, arith, ◌==◌, ==_iff, length, All, if◌then◌else◌, Bool-cases, inl, inr,
}
use think_pixel_llmgw.Cache.{CacheEntry, Element, deref, unlink, back}

module _ {ℓ} {V : Type ℓ} where
  -- The address of the element that holds a key.
  unfoldable pub index : List (Element V) → String → Option ℕ
  index [] k = none
  index (e ∷ l) k = if str_eq e.key k then some e.address else index l k

  -- No two elements share a key or an address.
  abbrev pub IsDistinct : List (Element V) → Type ℓ
  IsDistinct [] = Unit
  IsDistinct (e ∷ l) = (index l e.key ≡ none) × (deref l e.address ≡ none) × IsDistinct l

  -- The element that the index gives can be read, and holds the key.
  pub index-deref :
      (l : List (Element V)) (k : String) (a : ℕ)
      → IsDistinct l
      → index l k ≡ some a
      → (entry : CacheEntry V) × (deref l a ≡ some entry) × (entry.key ≡ k)
  unfolding index deref
  index-deref [] k a d h = cc
  index-deref (e ∷ l) k a d h = elim (Bool-cases (str_eq e.key k)) [
    | inl same ↦ (e.entry, ground arith, (eq_iff e.key k).0 same)
    | inr other ↦
        let (entry, at, holds) = index-deref l k a d.2 (rw other at h) in
        (entry, ground arith, holds)
  ]

  -- What the rest of the list says of an element whose key is not `k`.
  pub address_ne :
      (e : Element V) (l : List (Element V)) (k : String) (a : ℕ)
      → IsDistinct (e ∷ l)
      → index l k ≡ some a
      → (e.address == a) ≡ false
  unfolding deref
  address_ne e l k a d h = elim (Bool-cases (e.address == a)) [
    | inr ne ↦ ne
    | inl same ↦
        let (entry, at, holds) = index-deref l k a d.2 h in
        absurd (cc (at, d.1, (==_iff e.address a).0 same))
  ]

  -- Removing the element that holds `k` removes `k` from the index, and nothing else.
  pub index-unlink :
      (l : List (Element V)) (k j : String) (a : ℕ)
      → IsDistinct l
      → index l k ≡ some a
      → index (unlink l a) j ≡ (if str_eq k j then none else index l j)
  unfolding index unlink
  index-unlink [] k j a d h = cc
  index-unlink (e ∷ l) k j a d h = elim (Bool-cases (str_eq e.key k)) [
    | inl same ↦ ground (arith, eq_iff e.key k, eq_iff k j, eq_iff e.key j)
    | inr other ↦
        let h' : index l k ≡ some a = rw other at h in
        ground (
          arith,
          address_ne e l k a d h',
          index-unlink l k j a d.2 h',
          eq_iff e.key k,
          eq_iff k j,
          eq_iff e.key j,
        )
  ]

  pub deref-unlink_ne :
      (l : List (Element V)) (a b : ℕ) → (a == b) ≡ false → deref (unlink l a) b ≡ deref l b
  unfolding deref unlink
  deref-unlink_ne [] a b h = refl
  deref-unlink_ne (e ∷ l) a b h = elim (Bool-cases (e.address == a)) [
    | inl same ↦ ground arith
    | inr other ↦ ground (arith, deref-unlink_ne l a b h)
  ]

  pub deref-unlink_self :
      (l : List (Element V)) (a : ℕ) → IsDistinct l → deref (unlink l a) a ≡ none
  unfolding deref unlink
  deref-unlink_self [] a d = refl
  deref-unlink_self (e ∷ l) a d = elim (Bool-cases (e.address == a)) [
    | inl same ↦ ground (arith, d.1)
    | inr other ↦ ground (arith, deref-unlink_self l a d.2)
  ]

  -- An unlinked list has no key that the list did not have.
  index-unlink-none :
      (l : List (Element V)) (k : String) (a : ℕ) → index l k ≡ none → index (unlink l a) k ≡ none
  unfolding index unlink
  index-unlink-none [] k a h = refl
  index-unlink-none (e ∷ l) k a h = elim (Bool-cases (str_eq e.key k)) [
    | inl same ↦ ground arith
    | inr other ↦ ground (arith, index-unlink-none l k a (rw other at h))
  ]

  deref-unlink-none :
      (l : List (Element V)) (a b : ℕ) → deref l b ≡ none → deref (unlink l a) b ≡ none
  unfolding deref unlink
  deref-unlink-none [] a b h = refl
  deref-unlink-none (e ∷ l) a b h = elim (Bool-cases (e.address == b)) [
    | inl same ↦ ground arith
    | inr other ↦ ground (arith, deref-unlink-none l a b (rw other at h))
  ]

  pub unlink-IsDistinct : (l : List (Element V)) (a : ℕ) → IsDistinct l → IsDistinct (unlink l a)
  unfolding unlink
  unlink-IsDistinct [] a d = d
  unlink-IsDistinct (e ∷ l) a d = elim (Bool-cases (e.address == a)) [
    | inl same ↦ rw same d.2
    | inr other ↦ rw other (
      index-unlink-none l e.key a d.0,
      deref-unlink-none l a e.address d.1,
      unlink-IsDistinct l a d.2,
    )
  ]

  pub length-unlink :
      (l : List (Element V)) (a : ℕ) {entry : CacheEntry V}
      → deref l a ≡ some entry
      → suc (length (unlink l a)) ≡ length l
  unfolding deref unlink
  length-unlink [] a h = cc
  length-unlink (e ∷ l) a h = elim (Bool-cases (e.address == a)) [
    | inl same ↦ rw same
    | inr other ↦
        let h' : deref l a ≡ some _ = rw other at h in rw other (ap suc (length-unlink l a h'))
  ]

  pub All-unlink {κ} :
      (P : Element V → Type κ) (l : List (Element V)) (a : ℕ) → All P l → All P (unlink l a)
  unfolding unlink
  All-unlink P [] a h = h
  All-unlink P (e ∷ l) a h = elim (Bool-cases (e.address == a)) [
    | inl same ↦ rw same h.1
    | inr other ↦ rw other (h.0, All-unlink P l a h.1)
  ]

  -- An address that no element has reached yet is not in the list.
  pub deref-fresh : (l : List (Element V)) (n : ℕ) → All (λ e. e.address < n) l → deref l n ≡ none
  unfolding deref
  deref-fresh [] n h = refl
  deref-fresh (e ∷ l) n h = ground (arith, h.0, deref-fresh l n h.1)

  pub deref-lt :
      (l : List (Element V)) (a n : ℕ) {entry : CacheEntry V}
      → All (λ e. e.address < n) l
      → deref l a ≡ some entry
      → a < n
  unfolding deref
  deref-lt [] a n h at = cc
  deref-lt (e ∷ l) a n h at = elim (Bool-cases (e.address == a)) [
    | inl same ↦ ground (arith, h.0)
    | inr other ↦ deref-lt l a n h.1 (rw other at at)
  ]

  -- An element in the middle of a list of distinct elements: the index and the address find it,
  -- and unlinking it joins what stands on its two sides.
  pub middle :
      (before : List (Element V)) (e : Element V) (after : List (Element V))
      → IsDistinct (before ++ e ∷ after)
      → (index (before ++ e ∷ after) e.key ≡ some e.address)
        × (deref (before ++ e ∷ after) e.address ≡ some e.entry)
        × (unlink (before ++ e ∷ after) e.address ≡ before ++ after)
  unfolding index deref unlink
  middle [] e after d = (ground (arith, eq_refl e.key), ground arith, ground arith)
  middle (b ∷ before) e after d =
      let (at_key, at_address, joined) = middle before e after d.2 in
      elim (Bool-cases (str_eq b.key e.key)) [
        | inl same ↦ absurd (cc (d.0, at_key, (eq_iff b.key e.key).0 same))
        | inr other ↦ elim (Bool-cases (b.address == e.address)) [
          | inl same ↦ absurd (cc (d.1, at_address, (==_iff b.address e.address).0 same))
          | inr apart ↦ (rw other at_key, rw apart at_address, rw apart (ap (λ l. b ∷ l) joined))
        ]
      ]

  -- `Back()` is the last element.
  pub back-append :
      (l : List (Element V)) {e : Element V}
      → back l ≡ some e
      → (before : List (Element V)) × (l ≡ before ++ e ∷ [])
  unfolding back
  back-append [] h = cc
  back-append (e ∷ []) h = ([], cc)
  back-append (e ∷ e' ∷ l) h =
      let (before, same) = back-append (e' ∷ l) h in (e ∷ before, ap (λ l. e ∷ l) same)

  pub back-none : (l : List (Element V)) → back l ≡ none → length l ≡ 0
  unfolding back
  back-none [] h = refl
  back-none (e ∷ []) h = cc
  back-none (e ∷ e' ∷ l) h = absurd (not_zero (back-none (e' ∷ l) h))
    where
      not_zero : suc (length l) ≡ 0 → ⊥
      not_zero q = omega arith
