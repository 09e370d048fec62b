-- ===== src/Prelude.antt =====
-- The names that every module shares: those of the libraries, passed on, and those of the
-- children, which hold tests, lists, bits and byte strings over the native numbers.
mod Tests
mod Lists
mod Bits
mod Xor
mod Bytes
mod Names
mod Tables
mod Latest
mod Repeats
pub mod Int
pub use Tests.*
pub use Lists.*
pub use Names.*
pub use Tables.*
pub use Latest.*
pub use Repeats.*
pub use Bits.*
pub use Xor.*
pub use Bytes.*
pub use Prim.Native.Nat.{
  ℕ, zero, suc, ◌+◌, ◌-◌, ◌*◌, ◌/◌, ◌%◌, ◌^◌, ◌≤◌, ◌<◌, bit_and, bit_or, bit_xor, min, max,
}
pub use Prim.Native.String.{String}
pub use mathlib.Core.Path.{◌≡◌, refl, sym, ap, ◌∙◌}
pub use mathlib.Core.Logic.{◌≢◌, ◌↔◌, ◌⊎◌, inl, inr}
pub use mathlib.Core.Bool.{Bool, true, false, not, ◌&&◌, ◌||◌}
pub use mathlib.Core.Option.{Option, none, some}
pub use mathlib.Core.List.{List, [], ◌∷◌, ◌++◌, map}
pub use native.Mathlib.Omega.{arith}
pub use text.Mathlib.Text.{◌==◌ as str_eq}
pub use text.Mathlib.TextEquality.{eq_iff}
