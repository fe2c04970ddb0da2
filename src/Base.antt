-- ===== src/Base.antt =====
-- The names that the other modules share: the libraries' names, passed on, and the helpers of the
-- children on tests, lists, signed integers, texts, bits, time and errors.
mod Tests
mod Lists
mod Text
mod Ints
mod Bits
mod Clock
mod Errors
mod Assoc
pub use Tests.*
pub use Lists.*
unfoldable pub use Text.*
pub use Text.Decimal.*
unfoldable pub use Ints.*
unfoldable pub use Bits.*
unfoldable pub use Clock.*
unfoldable pub use Errors.*
unfoldable pub use Assoc.*
pub use Prim.Native.Nat.{ℕ, zero, suc, ◌+◌, ◌-◌, ◌*◌, ◌/◌, ◌%◌, ◌^◌, ◌≤◌, ◌<◌, min}
pub use Prim.Native.String.{String}
pub use mathlib.Core.Path.{◌≡◌, refl, sym, ap, subst, ◌∙◌}
pub use mathlib.Core.Logic.{◌≢◌, ◌↔◌, ◌⊎◌, inl, inr}
pub use mathlib.Core.Bool.{Bool, true, false, not, ◌&&◌, ◌||◌}
pub use mathlib.Core.Option.{Option, none, some}
pub use mathlib.Core.List.{List, [], ◌∷◌, ◌++◌, map}
pub use native.Mathlib.Omega.{arith}
pub use text.Mathlib.Text.{◌==◌ as str_eq}
pub use text.Mathlib.TextEquality.{eq_iff}
