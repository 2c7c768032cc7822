-- ===== src/Prelude/Float.antt =====
-- What the code does with a `float64`: the constant 0.0, conversion from `int`, `+ * /`, `<`.
-- The type and its operations are an argument of the definitions that use them. The tests
-- instantiate it with whole micro-units.
use Prim.Native.Nat.{ℕ, ◌+◌, ◌*◌, ◌/◌}
use mathlib.Core.Bool.{Bool}
use think_pixel_llmgw.Prelude.Tests.{ltb}
use think_pixel_llmgw.Prelude.Int.{ℤ, to_ℕ}

pub record Float64 {ℓ} (W : Type ℓ) : Type ℓ where
  pub nought : W
  pub of_int : ℤ → W
  pub plus : W → W → W
  pub times : W → W → W
  pub over : W → W → W
  pub less : W → W → Bool

instance abbrev pub whole_float : Float64 ℕ
whole_float = record { nought = 0; of_int = to_ℕ; plus = ◌+◌; times = ◌*◌; over = ◌/◌; less = ltb }
