-- ===== src/Common.antt =====
-- The names that the other modules share: the libraries', passed on, tests on numbers, arrays as
-- lists, sets of addresses, and the laws of the bit operations.
mod Tests
mod Arrays
mod Nodes
pub mod Bits
pub mod Int
pub mod Memory
pub use Tests.*
pub use Arrays.*
pub use Nodes.*
pub use Prim.Native.Nat.{ℕ, zero, suc, ◌+◌, ◌-◌, ◌*◌, ◌/◌, ◌%◌, ◌^◌, ◌≤◌, ◌<◌}
pub use mathlib.Core.Path.{◌≡◌, refl, sym, ap, ◌∙◌}
pub use mathlib.Core.Logic.{◌≢◌, ◌↔◌, ◌⊎◌, inl, inr}
pub use mathlib.Core.Bool.{Bool, true, false, not, ◌&&◌, ◌||◌}
pub use mathlib.Core.Option.{Option, none, some}
pub use mathlib.Core.List.{List, [], ◌∷◌, ◌++◌, map}
pub use native.Mathlib.Omega.{arith}
