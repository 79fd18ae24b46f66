-- ===== src/Base.antt =====
-- The names that all modules share: the library's, passed on, and those of the children below.
mod Tests
mod Lists
mod Results
mod Strings
pub mod Int
pub use Tests.*
pub use Lists.*
pub use Results.*
pub use Strings.{Cadena, codes, strcmp_eq_refl, strcmp_eq_sound}
unfoldable pub use Strings.{strcmp_eq}
pub use Prim.Native.Nat.{ℕ, zero, suc, ◌+◌, ◌-◌, ◌*◌, ◌/◌, ◌%◌, ◌^◌, ◌≤◌, ◌<◌, min}
pub use mathlib.Core.Path.{◌≡◌, refl, sym, ap, subst, ◌∙◌, fun_ext}
pub use mathlib.Core.Logic.{◌≢◌, ◌↔◌, ◌⊎◌, inl, inr}
pub use mathlib.Core.Bool.{Bool, true, false, ◌&&◌, ◌||◌, not}
pub use mathlib.Core.Option.{Option, none, some}
pub use mathlib.Core.List.{List, [], ◌∷◌, ◌++◌, map, append-nil, append_assoc}
pub use native.Mathlib.Omega.{arith}
