-- ===== src/Common.antt =====
-- The names that the other modules share: the libraries', passed on, and those of the children.
-- A Go string is the list of its bytes; a Go error is the `err` of a result.
mod Tests
mod Lists
pub mod Int
pub mod Decimal
pub mod Search
mod Maps
mod Text
mod Results
pub use Tests.*
pub use Lists.*
pub use Text.*
pub use Maps.*
pub use Results.*
pub use Prim.Native.Nat.{ℕ, zero, suc, ◌+◌, ◌-◌, ◌*◌, ◌≤◌, ◌<◌, min, max}
pub use mathlib.Core.Path.{◌≡◌, refl, sym, ap, subst, ◌∙◌}
pub use mathlib.Core.Logic.{◌≢◌, ◌↔◌, ◌⊎◌, inl, inr}
pub use mathlib.Core.Bool.{Bool, true, false, not, ◌&&◌, ◌||◌}
pub use mathlib.Core.Option.{Option, none, some}
pub use mathlib.Core.List.{List, [], ◌∷◌, ◌++◌, map, append-nil, append_assoc}
pub use native.Mathlib.Omega.{arith}
unfoldable pub use native.Mathlib.Decide.{ℕ_discrete, dec_lt}
