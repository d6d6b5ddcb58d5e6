-- ===== src/Common.antt =====
-- The names that the other modules share: the libraries', passed on, and those of the children.
mod Tests
mod Lists
mod Strings
mod Maps
mod Decimal
mod Date
mod Sort
mod Cutting
pub use Tests.*
pub use Lists.*
pub use Prim.Native.Nat.{suc, zero, ℕ, ◌-◌, ◌+◌, ◌/◌, ◌*◌, ◌^◌, ◌%◌, ◌≤◌, ◌<◌, min, max}
pub use Prim.Native.String.{String}
pub use mathlib.Core.Path.{◌≡◌, refl, sym, ap, ◌∙◌, subst}
pub use mathlib.Core.Logic.{◌≢◌, ◌↔◌, ◌⊎◌, inl, inr}
pub use mathlib.Core.Bool.{Bool, true, false, not, ◌&&◌, ◌||◌, false≢true}
pub use mathlib.Core.Option.{Option, none, some}
pub use mathlib.Core.List.{List, [], ◌∷◌, ◌++◌, map, append_assoc, append-nil}
pub use native.Mathlib.Omega.{arith}
unfoldable pub use Strings.*
unfoldable pub use Maps.*
unfoldable pub use Decimal.*
unfoldable pub use Date.*
unfoldable pub use Sort.*
pub use Cutting.*
