-- ===== src/Prelude/Int.antt =====
-- Go's `int`: integers over the native numbers, and the wrap-around of 64 bits. `negsuc n` is
-- -(n + 1).
use Prim.Native.Nat.{ℕ, suc, ◌-◌, ◌*◌, ◌%◌, ◌^◌, ◌<◌}
use mathlib.Core.Path.{◌≡◌}
use mathlib.Core.Bool.{Bool, false}
use native.Mathlib.Omega.{arith}
use think_pixel_llmgw.Prelude.Tests.{ltb, leb, if◌then◌else◌}

pub data ℤ : Type 0 where
  pos : ℕ → ℤ
  negsuc : ℕ → ℤ

-- `z > 0`
abbrev pub is_pos : ℤ → Bool
is_pos (pos n) = ltb 0 n
is_pos (negsuc _) = false

-- The value of an integer that is not negative, and 0 for a negative one.
abbrev pub to_ℕ : ℤ → ℕ
to_ℕ (pos n) = n
to_ℕ (negsuc _) = 0

-- a - b, as an integer.
abbrev pub sub_ℕ : ℕ → ℕ → ℤ
sub_ℕ a b = if leb b a then pos (a - b) else negsuc (b - a - 1)

-- The signed integer that a 64-bit pattern stands for.
abbrev pub signed_64 : ℕ → ℤ
signed_64 w = if ltb w (2 ^ 63) then pos w else negsuc (2 ^ 64 - w - 1)

-- `z * k` at type `int`, for a constant k that is not negative.
unfoldable pub mul_int : ℤ → ℕ → ℤ
mul_int (pos n) k = signed_64 ((n * k) % 2 ^ 64)
mul_int (negsuc n) k = signed_64 ((2 ^ 64 - (suc n * k) % 2 ^ 64) % 2 ^ 64)

-- A product that fits is exact.
pub mul_int-pos : (n k : ℕ) → n * k < 2 ^ 63 → mul_int (pos n) k ≡ pos (n * k)
unfolding mul_int
mul_int-pos n k h = ground arith
