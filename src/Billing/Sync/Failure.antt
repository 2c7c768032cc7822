-- ===== src/Billing/Sync/Failure.antt =====
-- That syncToDatabase synchronises no key: after `%s` has read up to a space or the end, the ":"
-- that the format asks for is not there.
use Prim.Native.Char.{Char, code}
use text.Mathlib.TextBridge.{to_list}
use think_pixel_llmgw.Prelude.{
  ℕ, suc, ◌≡◌, refl, sym, ap, arith, String, true, false, Bool-cases, inl, inr, ◌==◌, Option, none,
  some, List, [], ◌∷◌, ◌++◌, map, append_assoc,
}
use think_pixel_llmgw.Redis.{RedisValues}
use think_pixel_llmgw.Billing.Sync.{
  is_space, scan_literal, scan_word, skip_space, after_word, word_at, word_in, ◌>>=◌, colon, cost,
  scan_month, scan_key, sync_key, sync_page, sync_to_database, Scanned, ScanReply, scanned,
  SyncError, invalid_key_format, completed,
}

space_not_colon : (n : ℕ) → is_space n ≡ true → (58 == n) ≡ false
unfolding is_space
space_not_colon n space = ground arith

-- Where a word ends, no ":" follows.
scan_literal-after_word : (input : List Char) → scan_literal colon (after_word input) ≡ none
scan_literal-after_word [] = refl
scan_literal-after_word (c ∷ input) = elim (Bool-cases (is_space (code c))) [
  | inl space ↦ rw (space, space_not_colon (code c) space)
  | inr not_space ↦ rw not_space (scan_literal-after_word input)
]

word_at-colon {ℓ} :
    {B : Type ℓ} (input : List Char) (g : String → List Char → Option B)
    → (word_at input >>= λ x. scan_literal colon x.1 >>= g x.0) ≡ none
word_at-colon [] g = refl
word_at-colon (c ∷ input) g = rw (scan_literal-after_word (c ∷ input))

word_in-colon {ℓ} :
    {B : Type ℓ} (skipped : Option (List Char)) (g : String → List Char → Option B)
    → (word_in skipped >>= λ x. scan_literal colon x.1 >>= g x.0) ≡ none
word_in-colon none g = refl
word_in-colon (some rest) g = word_at-colon rest g

bind-none {ℓ κ} :
    {A : Type ℓ} {B : Type κ} (m : Option A) (f : A → Option B)
    → ((a : A) → f a ≡ none)
    → (m >>= f) ≡ none
bind-none none f h = refl
bind-none (some a) f h = h a

scan_key-none : (key : String) → scan_key key ≡ none
unfolding scan_key scan_word
scan_key-none key =
    bind-none (scan_literal cost (to_list key)) _
      (λ rest. word_in-colon (skip_space rest) scan_month)

module _ {ℓ} {R : Type ℓ} where
  abbrev pub failure : Scanned R → String × SyncError
  failure k = (k.key, invalid_key_format)

  -- The pages before the last one, with cursors that are not 0, and their keys.
  abbrev pub pages : List (List (Scanned R) × ℕ) → List (ScanReply R)
  pages [] = []
  pages (p ∷ front) = scanned (p.0) (suc (p.1)) ∷ pages front

  abbrev pub failures : List (List (Scanned R) × ℕ) → List (String × SyncError)
  failures [] = []
  failures (p ∷ front) = map failure (p.0) ++ failures front

module _ {ℓ} {R W : Type ℓ} (kv : RedisValues R W) {U : Type 0}
    (parse_uuid : String → Option U) where
  sync_key-fails : (k : Scanned R) → sync_key kv parse_uuid k ≡ some invalid_key_format
  unfolding sync_key
  sync_key-fails k = rw (sync_key, scan_key-none (k.key))

  sync_page-fails : (keys : List (Scanned R)) → sync_page kv parse_uuid keys ≡ map failure keys
  unfolding sync_page
  sync_page-fails [] = refl
  sync_page-fails (k ∷ keys) =
      rw (sync_page, sync_key-fails k) (ap (λ l. failure k ∷ l) (sync_page-fails keys))

  -- For any replies to SCAN that reach cursor 0, and whatever the keys and their values are,
  -- syncToDatabase returns nil and has printed that every key it was given has an invalid format.
  pub sync_to_database-fails :
      (front : List (List (Scanned R) × ℕ)) (last : List (Scanned R)) (later : List (ScanReply R))
      → sync_to_database kv parse_uuid (pages front ++ scanned last 0 ∷ later)
        ≡ (failures front ++ map failure last, completed)
  unfolding sync_to_database
  sync_to_database-fails [] last later = ap (λ l. (l, completed)) (sync_page-fails last)
  sync_to_database-fails (p ∷ front) last later =
      rw (sync_to_database, sync_page-fails (p.0), sync_to_database-fails front last later)
        (ap (λ l. (l, completed)) (sym (append_assoc (map failure (p.0)) (failures front) _)))
