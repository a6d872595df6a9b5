-- ===== src/Prelude.antt =====
-- The names that the components share: those of the libraries, passed on, the Boolean tests, and
-- the parts of Python's `str`, `list` and `dict` that the filter plugins call.
mod Branch
pub mod Lists
pub mod Members
pub mod Text
pub mod Split
pub mod Dict
pub mod Int
pub mod Json
pub mod Repr
pub mod Shell
pub mod Quoting
pub mod Pieces
pub mod Ip
pub mod Networks
pub mod Canonical
pub mod Blocks
pub use Branch.*
pub use Prim.Native.Nat.{ℕ, zero, suc, ◌+◌, ◌-◌, ◌*◌, ◌/◌, ◌%◌, ◌≤◌, ◌<◌}
pub use Prim.Native.String.{String, ◌++◌ as ◌<>◌}
pub use mathlib.Core.Path.{◌≡◌, refl, sym, ap, ◌∙◌}
pub use mathlib.Core.Logic.{◌≢◌, ◌↔◌, ◌⊎◌, inl, inr}
pub use mathlib.Core.Bool.{Bool, true, false, not, ◌&&◌, ◌||◌}
pub use mathlib.Core.Option.{Option, none, some}
pub use mathlib.Core.List.{List, [], ◌∷◌, ◌++◌, map}
pub use native.Mathlib.Omega.{arith}
unfoldable pub use Text.{◌==◌}
pub use Text.{eq→≡, ≡→eq}
