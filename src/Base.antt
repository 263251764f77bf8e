-- ===== src/Base.antt =====
-- The names that the modules of the development share: the libraries', passed on, and those of
-- the children.
mod Tests
mod Lists
mod Words
pub mod Bits
pub mod Fallible
pub mod Panic
pub use Tests.*
pub use Lists.*
pub use Words.*
pub use Fallible.{Errno, Fail, Result, fail}
unfoldable pub use Panic.{adjust, trim}
pub use Panic.{adjust_lem, trim_lem}
pub use Prim.Native.Nat.{bit_or}
pub use Prim.Native.Nat.{ℕ, zero, suc, ◌+◌, ◌-◌, ◌*◌, ◌/◌, ◌%◌, ◌^◌, ◌≤◌, ◌<◌, min, max}
pub use mathlib.Core.Path.{◌≡◌, refl, sym, ap, ap₂, ◌∙◌}
pub use mathlib.Core.Logic.{◌≢◌, ◌↔◌, ◌⊎◌, inl, inr}
pub use mathlib.Core.Bool.{Bool, true, false, not, ◌&&◌, ◌||◌}
pub use mathlib.Core.Option.{Option, none, some}
pub use mathlib.Core.List.{List, [], ◌∷◌, ◌++◌, map, append-nil, append_assoc}
pub use native.Mathlib.Omega.{arith}
