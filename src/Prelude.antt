-- ===== src/Prelude.antt =====
-- The names that the other modules share: the libraries' and those of its children.
mod Tests
mod Int
mod Eqs
mod Dicts
mod Outcomes
mod Lists
mod Texts
mod Decimals
unfoldable pub use Tests.*
pub use Int.*
pub use Eqs.*
pub use Dicts.*
pub use Outcomes.*
pub use Lists.*
unfoldable pub use Texts.*
unfoldable pub use Decimals.*
pub use Prim.Native.Nat.{ℕ, zero, suc, ◌+◌, ◌-◌, ◌*◌, ◌/◌, ◌%◌, ◌^◌, ◌≤◌, ◌<◌, min, max}
pub use Prim.Native.String.{String}
pub use mathlib.Core.Path.{◌≡◌, refl, sym, ap, ◌∙◌}
pub use mathlib.Core.Logic.{◌≢◌, ◌↔◌, ◌⊎◌, inl, inr}
pub use mathlib.Core.Bool.{Bool, true, false, not, ◌&&◌, ◌||◌}
pub use mathlib.Core.Option.{Option, none, some}
pub use mathlib.Core.List.{List, [], ◌∷◌, ◌++◌, map}
pub use native.Mathlib.Omega.{arith}
