-- ===== src/Common.antt =====
-- The names that the modules share: the libraries', passed on, and those of the children, which
-- hold Boolean tests, arrays under native indices, texts, and the stable sort of `Array.prototype.sort`.
mod Tests
mod Arrays
mod Stores
mod Texts
pub mod Sort
pub use Tests.*
pub use Arrays.*
unfoldable pub use Stores.*
unfoldable pub use Texts.*
pub use Prim.Native.Nat.{ℕ, zero, suc, ◌+◌, ◌-◌, ◌*◌, ◌/◌, ◌%◌, ◌^◌, ◌≤◌, ◌<◌}
pub use Prim.Native.String.{String}
pub use mathlib.Core.Path.{◌≡◌, refl, sym, ap, subst, fun_ext, ◌∙◌}
pub use mathlib.Core.Logic.{◌≢◌, ◌↔◌, ◌⊎◌, inl, inr}
pub use mathlib.Core.Bool.{Bool, true, false, not, ◌&&◌, ◌||◌}
pub use mathlib.Core.Option.{Option, none, some}
pub use mathlib.Core.List.{List, [], ◌∷◌, ◌++◌, map}
unfoldable pub use native.Mathlib.Decide.{ℕ_discrete}
pub use native.Mathlib.Omega.{arith}
