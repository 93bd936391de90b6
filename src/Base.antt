-- ===== src/Base.antt =====
-- The names that all modules share: those of the libraries, passed on, and those of the children.
pub mod Tests
pub mod Lists
pub mod Errors
pub mod Int
pub mod Bits
pub mod Bytes
pub mod Edit
unfoldable pub use Tests.*
pub use Lists.*
pub use Errors.*
pub use Int.*
unfoldable pub use Bytes.*
unfoldable pub use Edit.*
pub use Prim.Native.Nat.{ℕ, zero, suc, ◌+◌, ◌-◌, ◌*◌, ◌/◌, ◌%◌, ◌^◌, ◌≤◌, ◌<◌, min, max}
pub use Prim.Native.Nat.{bit_and, bit_or}
pub use mathlib.Core.Path.{◌≡◌, refl, sym, ap, ap₂, ◌∙◌}
pub use mathlib.Core.Logic.{◌≢◌, ◌↔◌, ◌⊎◌, inl, inr}
pub use mathlib.Core.Bool.{Bool, true, false, not, ◌&&◌, ◌||◌}
pub use mathlib.Core.Option.{Option, none, some}
pub use mathlib.Core.List.{List, [], ◌∷◌, ◌++◌, map}
pub use mathlib.Core.List.{append-nil, append_assoc}
pub use native.Mathlib.Omega.{arith}
