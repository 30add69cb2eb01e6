-- ===== src/Base.antt =====
-- The names that the other modules share: the libraries' names passed on, Boolean tests on numbers,
-- lists measured by native numbers, and texts as lists of bytes.
mod Tests
mod Lists
mod Texts
mod Maps
mod Ints
pub use Tests.*
pub use Lists.*
pub use Texts.*
pub use Maps.*
pub use Ints.*
unfoldable pub use Texts.{text, text_eq}
unfoldable pub use Maps.{lookup, assign}
unfoldable pub use Ints.{decimal, to_string}
pub use Prim.Native.Nat.{ℕ, zero, suc, ◌+◌, ◌-◌, ◌*◌, ◌/◌, ◌%◌, ◌^◌, ◌≤◌, ◌<◌}
pub use Prim.Native.String.{String}
pub use mathlib.Core.Path.{◌≡◌, refl, sym, ap, ◌∙◌, subst}
pub use mathlib.Core.Logic.{◌≢◌, ◌↔◌, ◌⊎◌, inl, inr}
pub use mathlib.Core.Bool.{Bool, true, false, not, ◌&&◌, ◌||◌}
pub use mathlib.Core.Option.{Option, none, some}
pub use mathlib.Core.List.{List, [], ◌∷◌, ◌++◌, map, append-nil, append_assoc}
pub use native.Mathlib.Omega.{arith}
