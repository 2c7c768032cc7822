-- ===== src/Prelude/Decimal.antt =====
-- Decimal text, as `%d` and `%02d` of Go's fmt print a number that is not negative.
use Prim.Native.String.{◌++◌ as str_append}
use Prim.Native.Nat.{ℕ, zero, suc, ◌/◌, ◌%◌}
use Prim.Native.String.{String, ◌++◌}
use think_pixel_llmgw.Prelude.Tests.{ltb, ◌==◌, if◌then◌else◌}

abbrev digit : ℕ → String
digit n =
    if n == 0
    then "0"
    else if n == 1
    then "1"
    else if n == 2
    then "2"
    else if n == 3
    then "3"
    else if n == 4
    then "4"
    else if n == 5
    then "5"
    else if n == 6
    then "6"
    else if n == 7
    then "7"
    else if n == 8
    then "8"
    else "9"

-- At most `fuel` digits; twenty are enough for any 64-bit number.
digits : ℕ → ℕ → String
digits zero n = ""
digits (suc fuel) n =
    let rest = digits fuel (n / 10) in if ltb n 10 then digit n else rest ++ digit (n % 10)

infixr 60 ◌⊕◌
abbrev pub ◌⊕◌ : String → String → String
a ⊕ b = str_append a b

unfoldable pub decimal : ℕ → String
unfolding digits
decimal n = digits 20 n

unfoldable pub two_digits : ℕ → String
unfolding decimal
two_digits n = if ltb n 10 then "0" ++ digit n else decimal n
