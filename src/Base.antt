-- ===== src/Base.antt =====
-- The names that all modules share: the libraries', passed on, and those of the children (tests on
-- numbers, lists with native indices, outcomes of kernel code).
mod Tests
mod BitLaws
mod Masks
mod Int
mod Lists
mod Effects
unfoldable pub use Tests.*
pub use BitLaws.*
pub use Masks.*
pub use Int.*
pub use Lists.*
pub use Effects.*
pub use Prim.Native.Nat.{
  ℕ, zero, suc, ◌+◌, ◌-◌, ◌*◌, ◌/◌, ◌%◌, ◌^◌, ◌≤◌, ◌<◌, min, max, bit_and, bit_or, bit_xor,
}
pub use mathlib.Core.Path.{◌≡◌, refl, sym, ap, ◌∙◌, subst}
pub use mathlib.Core.Logic.{◌≢◌, ◌↔◌, ◌⊎◌, inl, inr}
pub use mathlib.Core.Bool.{Bool, true, false, not, ◌&&◌, ◌||◌}
pub use mathlib.Core.Option.{Option, none, some}
pub use mathlib.Core.List.{List, [], ◌∷◌, ◌++◌, map}
pub use native.Mathlib.Omega.{arith}
