-- ===== src/Billing/Sync.antt =====
-- The synchronisation of the totals with the database, syncToDatabase, syncKey and Shutdown of
-- llm_gateway/internal/billing/billing.go. `fmt.Sscanf` is written out for the one format that the
-- code has, "cost:%s:%d:%d", over the characters of the key. The Redis client is given by its
-- replies: a page of SCAN names keys, each with the server and the link that its GET meets.
pub mod Failure
use Prim.Native.Char.{Char, code}
use text.Mathlib.TextBridge.{of_list, to_list}
use think_pixel_llmgw.Prelude.{
  ℕ, zero, suc, ◌+◌, ◌-◌, ◌*◌, ◌^◌, String, Bool, true, false, ◌&&◌, ◌||◌, ◌==◌, leb, ltb, ℤ, pos,
  negsuc, Option, none, some, List, [], ◌∷◌, ◌++◌, if◌then◌else◌,
}
use think_pixel_llmgw.Redis.{Link, replied, refused, reply_lost, RedisValues}

abbrev within : ℕ → ℕ → ℕ → Bool
within low high n = leb low n && leb n high

-- The spaces of fmt's scanner.
unfoldable pub is_space : ℕ → Bool
is_space n =
    within 9 13 n
    || n == 32
    || n == 133
    || n == 160
    || n == 5760
    || within 8192 8202 n
    || n == 8232
    || n == 8233
    || n == 8239
    || n == 8287
    || n == 12288

-- Plain text of the format: each character must be the next one of the input.
abbrev pub scan_literal : List Char → List Char → Option (List Char)
scan_literal [] input = some input
scan_literal (c ∷ format) [] = none
scan_literal (c ∷ format) (d ∷ input) = if code c == code d then scan_literal format input else none

-- What a verb does first: spaces are skipped, and a new line is an error.
abbrev pub skip_space : List Char → Option (List Char)
skip_space [] = some []
skip_space (c ∷ input) =
    if code c == 10
    then none
    else (if is_space (code c) then skip_space input else some (c ∷ input))

abbrev word : List Char → List Char
word [] = []
word (c ∷ input) = if is_space (code c) then [] else c ∷ word input

abbrev pub after_word : List Char → List Char
after_word [] = []
after_word (c ∷ input) = if is_space (code c) then c ∷ input else after_word input

abbrev pub word_at : List Char → Option (String × List Char)
word_at [] = none
word_at (c ∷ input) = some (of_list (word (c ∷ input)), after_word (c ∷ input))

abbrev pub word_in : Option (List Char) → Option (String × List Char)
word_in none = none
word_in (some rest) = word_at rest

-- `%s`
unfoldable pub scan_word : List Char → Option (String × List Char)
scan_word input = word_in (skip_space input)

-- The digits at the front of the input, read on from `n`, and what follows them.
abbrev digits_from : ℕ → List Char → ℕ × List Char
digits_from n [] = (n, [])
digits_from n (c ∷ input) =
    if within 48 57 (code c) then digits_from (n * 10 + (code c - 48)) input else (n, c ∷ input)

-- Digits with a sign, where there are some and the number is an int64.
abbrev number_at : Bool → List Char → Option (ℤ × List Char)
number_at minus [] = none
number_at minus (c ∷ input) =
    let (n, rest) = digits_from 0 (c ∷ input) in
    if within 48 57 (code c)
    then (if minus
        then (if n == 0
            then some (pos 0, rest)
            else (if leb n (2 ^ 63) then some (negsuc (n - 1), rest) else none))
        else (if ltb n (2 ^ 63) then some (pos n, rest) else none))
    else none

abbrev signed_at : List Char → Option (ℤ × List Char)
signed_at [] = none
signed_at (c ∷ input) =
    if code c == 45
    then number_at true input
    else (if code c == 43 then number_at false input else number_at false (c ∷ input))

abbrev int_in : Option (List Char) → Option (ℤ × List Char)
int_in none = none
int_in (some rest) = signed_at rest

-- `%d`
unfoldable pub scan_int : List Char → Option (ℤ × List Char)
scan_int input = int_in (skip_space input)

abbrev pub cost : List Char
cost = "c" ∷ "o" ∷ "s" ∷ "t" ∷ ":" ∷ []

abbrev pub colon : List Char
colon = ":" ∷ []

infixl 10 ◌>>=◌
abbrev pub ◌>>=◌ {ℓ κ} : {A : Type ℓ} {B : Type κ} → Option A → (A → Option B) → Option B
none >>= f = none
some a >>= f = f a

-- "%d:%d"
unfoldable pub scan_month : String → List Char → Option (String × ℤ × ℤ)
unfolding scan_int
scan_month api_key_id rest = do
  (year, rest) ← scan_int rest
  rest ← scan_literal colon rest
  (month, rest) ← scan_int rest
  some (api_key_id, year, month)

-- The key's ID, year and month.
unfoldable pub scan_key : String → Option (String × ℤ × ℤ)
unfolding scan_word scan_month
scan_key key = do
  rest ← scan_literal cost (to_list key)
  (api_key_id, rest) ← scan_word rest
  rest ← scan_literal colon rest
  scan_month api_key_id rest

pub data SyncError : Type 0 where
  invalid_key_format no_value invalid_id : SyncError

-- A key of a page of SCAN, and the server and the link that its GET meets.
pub record Scanned {ℓ} (R : Type ℓ) : Type ℓ where
  pub key : String
  pub redis : R
  pub link : Link

-- The reply to SCAN: an error, or a page with the next cursor.
pub data ScanReply {ℓ} (R : Type ℓ) : Type ℓ where
  scan_failed : ScanReply R
  scanned : List (Scanned R) → ℕ → ScanReply R

-- What syncToDatabase has come to: it returned nil or an error, or waits for the next reply.
pub data Outcome : Type 0 where
  completed failed_scan waiting : Outcome

module _ {ℓ} {R W : Type ℓ} (kv : RedisValues R W) {U : Type 0}
    (parse_uuid : String → Option U) where
  -- The GET of syncKey, whose error covers a missing key, and then the parse of the ID.
  abbrev pub checked : Option W → Option U → Option SyncError
  checked none id = some no_value
  checked (some total) none = some invalid_id
  checked (some total) (some id) = none

  abbrev pub fetched : Scanned R → Option W
  fetched k = elim (k.link) [ replied ↦ kv.get k.redis k.key | refused ↦ none | reply_lost ↦ none ]

  -- `none` is a nil error.
  unfoldable pub sync_key : Scanned R → Option SyncError
  unfolding scan_key
  sync_key k = elim (scan_key (k.key)) [
    | none ↦ some invalid_key_format
    | some (api_key_id, year, month) ↦ checked (fetched k) (parse_uuid api_key_id)
  ]

  -- The failures that a page prints.
  unfoldable pub sync_page : List (Scanned R) → List (String × SyncError)
  unfolding sync_key
  sync_page [] = []
  sync_page (k ∷ keys) =
      let rest = sync_page keys in elim (sync_key k) [ none ↦ rest | some e ↦ (k.key, e) ∷ rest ]

  -- The failures printed, and what became of the loop.
  unfoldable pub sync_to_database : List (ScanReply R) → List (String × SyncError) × Outcome
  unfolding sync_page
  sync_to_database [] = ([], waiting)
  sync_to_database (scan_failed ∷ replies) = ([], failed_scan)
  sync_to_database (scanned keys zero ∷ replies) = (sync_page keys, completed)
  sync_to_database (scanned keys (suc cursor) ∷ replies) =
      let (printed, outcome) = sync_to_database replies in (sync_page keys ++ printed, outcome)

  unfoldable pub shutdown : List (ScanReply R) → List (String × SyncError) × Outcome
  unfolding sync_to_database
  shutdown replies = sync_to_database replies
