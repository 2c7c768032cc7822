-- ===== src/Prelude.antt =====
-- Names that every module shares: those of the libraries, passed on, and those of the children
-- below (Boolean tests, lists over the native numbers, signed integers, Go's float64).
mod Tests
mod Lists
mod Int
mod Float
mod Decimal
pub use Tests.*
pub use Lists.*
pub use Int.*
unfoldable pub use Int.{mul_int}
pub use Decimal.{◌⊕◌}
unfoldable pub use Decimal.{decimal, two_digits}
pub use Float.*
pub use Prim.Native.Nat.{ℕ, zero, suc, ◌+◌, ◌-◌, ◌*◌, ◌/◌, ◌%◌, ◌^◌, ◌≤◌, ◌<◌, min, max}
pub use Prim.Native.String.{String}
pub use mathlib.Core.Path.{◌≡◌, refl, sym, ap, ◌∙◌, subst, subst₂, fun_ext}
pub use mathlib.Core.Logic.{◌≢◌, ◌↔◌, ◌⊎◌, inl, inr}
pub use mathlib.Core.Bool.{Bool, true, false, not, ◌&&◌, ◌||◌}
pub use mathlib.Core.Option.{Option, none, some}
pub use mathlib.Core.List.{List, [], ◌∷◌, ◌++◌, map, append-nil, append_assoc}
pub use native.Mathlib.Omega.{arith}
pub use text.Mathlib.Text.{◌==◌ as str_eq}
pub use text.Mathlib.TextEquality.{eq_iff}
pub use text.Mathlib.TextPositions.{eq_refl}
