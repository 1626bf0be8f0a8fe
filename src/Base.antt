-- ===== src/Base.antt =====
-- What every module shares: the libraries' names, Boolean tests, lists and signed numbers over the
-- native numbers, machine words, and flat byte memory.
mod Tests
mod Lists
mod Words
mod Store
pub mod Bits
pub mod Int
pub mod Dwords
pub use Tests.*
pub use Lists.*
pub use Words.*
pub use Store.*
pub use Prim.Native.Nat.{
  ℕ, zero, suc, ◌+◌, ◌-◌, ◌*◌, ◌/◌, ◌%◌, ◌^◌, ◌≤◌, ◌<◌, min, max, bit_and, bit_or, compare,
  Ordering,
}
pub use mathlib.Core.Path.{◌≡◌, refl, sym, ap, ap₂, ◌∙◌, fun_ext}
pub use mathlib.Core.Logic.{◌≢◌, ◌↔◌, ◌⊎◌, inl, inr}
pub use mathlib.Core.Bool.{Bool, true, false, ◌&&◌, ◌||◌, not}
pub use mathlib.Core.Option.{Option, none, some}
pub use mathlib.Core.List.{List, [], ◌∷◌, ◌++◌, map}
pub use native.Mathlib.Omega.{arith}
