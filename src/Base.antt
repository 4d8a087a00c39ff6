-- ===== src/Base.antt =====
-- The names that every part of the development shares: the libraries', passed on, and those of the
-- children (tests, lists, integers, maps, checks). No code of the repository is modelled here.
mod Tests
mod Lists
mod Int
mod Maps
mod Check
pub use Tests.*
pub use Lists.*
pub use Int.*
unfoldable pub use Maps.*
pub use Check.*
pub use Prim.Native.Nat.{ℕ, zero, suc, ◌+◌, ◌-◌, ◌*◌, ◌/◌, ◌%◌, ◌^◌, ◌≤◌, ◌<◌, min, max}
pub use Prim.Native.String.{String}
pub use mathlib.Core.Path.{◌≡◌, refl, sym, ap, ap₂, subst, ◌∙◌}
pub use mathlib.Core.Logic.{◌≢◌, ◌↔◌, ◌⊎◌, inl, inr}
pub use mathlib.Core.Bool.{Bool, true, false, not, ◌&&◌, ◌||◌}
pub use mathlib.Core.Option.{Option, none, some}
pub use mathlib.Core.List.{List, [], ◌∷◌, ◌++◌, map}
pub use native.Mathlib.Omega.{arith}
