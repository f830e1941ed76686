-- ===== src/Base.antt =====
-- The names that the other modules share: the libraries', passed on, and those of the children
-- below (Boolean tests, lists with native lengths, little-endian bytes, bit tables). They stand for
-- the Rust primitives that every file of the repository uses.
mod Tests
mod Lists
mod Search
mod Keyed
mod Ring
mod Bytes
mod Bits
mod Layout
unfoldable pub use Tests.*
unfoldable pub use Lists.*
unfoldable pub use Search.*
unfoldable pub use Keyed.*
unfoldable pub use Ring.*
unfoldable pub use Bytes.*
unfoldable pub use Bits.*
unfoldable pub use Layout.*
pub use Prim.Native.Nat.{ℕ, zero, suc, ◌+◌, ◌-◌, ◌*◌, ◌/◌, ◌%◌, ◌^◌, ◌≤◌, ◌<◌, min, max}
pub use Prim.Native.Nat.{bit_and, bit_or, bit_xor}
pub use mathlib.Core.Path.{◌≡◌, refl, sym, ap, ◌∙◌, subst}
pub use mathlib.Core.Logic.{◌≢◌, ◌↔◌, ◌⊎◌, inl, inr}
pub use mathlib.Core.Bool.{Bool, true, false, ◌&&◌, ◌||◌, not}
pub use mathlib.Core.Option.{Option, none, some}
pub use mathlib.Core.List.{List, [], ◌∷◌, ◌++◌, map}
pub use native.Mathlib.Omega.{arith}
