-- ===== src/Providers/Stream.antt =====
-- The StreamReader of llm_gateway/internal/providers/openai.go, on the lines that its scanner has
-- yet to give, and the events that the chat handler forwards of a stream.
use Prim.Native.String.{slice, len}
use text.Mathlib.Text.{starts_with}
use think_pixel_llmgw.Prelude.{
  ℕ, zero, suc, ◌<◌, subst, eq_iff, String, str_eq, Bool, true, false, not, ◌≡◌, refl, sym, ap,
  arith, Bool-cases, inl, inr, List, [], ◌∷◌, length, if◌then◌else◌,
}
use think_pixel_llmgw.Proxy.{StreamRead, chunk, done, broken, forward}

abbrev data_prefix : String
data_prefix = "data: "

-- What Read returns: an event with Data; io.EOF; the scanner's error.
pub data StreamEvent : Type 0 where
  event : String → StreamEvent
  end_of_stream : StreamEvent
  scan_error : StreamEvent

-- `bytes.TrimPrefix(line, "data: ")` of a line that has the prefix
abbrev pub data_of : String → String
data_of line = slice line (len data_prefix) (len line)

-- Read, and the lines that are left. `fails` says whether the scanner ends with an error.
unfoldable pub read : Bool → List String → StreamEvent × List String
read fails [] = (if fails then scan_error else end_of_stream, [])
read fails (line ∷ lines) =
    let rest = read fails lines in
    if str_eq line ""
    then rest
    else (if not (starts_with line data_prefix)
        then rest
        else (if str_eq (data_of line) "[DONE]"
            then (end_of_stream, lines)
            else (event (data_of line), lines)))

-- The reads of a loop that stops at io.EOF and at an error, on fuel.
abbrev pub read_of : StreamEvent → StreamRead
read_of (event d) = chunk true true
read_of end_of_stream = done
read_of scan_error = broken

unfoldable pub reads : ℕ → Bool → List String → List StreamRead
unfolding read
reads zero fails lines = []
reads (suc fuel) fails lines = let (e, rest) = read fails lines in read_of e ∷ reads fuel fails rest

-- The number of the lines with data before the end marker.
abbrev pub count_data : List String → ℕ
count_data [] = 0
count_data (line ∷ lines) =
    if starts_with line data_prefix
    then (if str_eq (data_of line) "[DONE]" then 0 else suc (count_data lines))
    else count_data lines

no_prefix : (line : String) → str_eq line "" ≡ true → starts_with line data_prefix ≡ false
no_prefix line blank =
    subst (λ l. starts_with l data_prefix ≡ false) (sym ((eq_iff line "").0 blank)) refl

-- The loop of the chat handler over the reads of a stream forwards, with a client that takes every
-- event, one event for each line with data before the end marker, and then stops, at that marker, at
-- the end or at the scanner's error; one read more than there are lines is enough.
pub forward-reads :
    (fuel : ℕ) (fails : Bool) (lines : List String)
    → length lines < fuel
    → forward (reads fuel fails lines) ≡ count_data lines
unfolding forward reads read
forward-reads zero fails lines enough = absurd (omega (arith, enough))
forward-reads (suc fuel) true [] enough = refl
forward-reads (suc fuel) false [] enough = refl
forward-reads (suc fuel) fails (line ∷ lines) enough =
    let skipped = forward-reads (suc fuel) fails lines (omega (arith, enough)) in
    let later = forward-reads fuel fails lines (omega (arith, enough)) in
    elim (Bool-cases (str_eq line "")) [
      | inl blank ↦ rw (blank, no_prefix line blank) skipped
      | inr full ↦ elim (Bool-cases (starts_with line data_prefix)) [
        | inr without ↦ rw (full, without) skipped
        | inl prefixed ↦ elim (Bool-cases (str_eq (data_of line) "[DONE]")) [
          | inl over ↦ rw (full, prefixed, over) refl
          | inr more ↦ rw (full, prefixed, more) (ap suc later)
        ]
      ]
    ]
