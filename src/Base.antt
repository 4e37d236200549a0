-- ===== src/Base.antt =====
-- Shared vocabulary: the library names that every part uses, tests, lists, texts and equality.
mod Tests
mod Equality
mod Lists
mod Text
pub use Tests.*
pub use Equality.*
unfoldable pub use Equality.{string_discrete}
pub use Lists.*
pub use Text.*
unfoldable pub use Text.{lstrip, rstrip, strip, replace_char, prefix, starts_with}
unfoldable pub use Lists.{take}
pub use Prim.Native.Nat.{ℕ, zero, suc, ◌+◌, ◌-◌, ◌*◌, ◌/◌, ◌%◌, ◌≤◌, ◌<◌, min, max}
pub use Prim.Native.String.{String}
pub use mathlib.Core.Path.{◌≡◌, refl, sym, ap, subst, ◌∙◌}
pub use mathlib.Core.Logic.{◌≢◌, ◌↔◌, ◌⊎◌, inl, inr}
pub use mathlib.Core.Bool.{Bool, true, false, not, ◌&&◌, ◌||◌}
pub use mathlib.Core.Option.{Option, none, some}
pub use mathlib.Core.List.{List, [], ◌∷◌, ◌++◌, map}
pub use native.Mathlib.Omega.{arith}
unfoldable pub use native.Mathlib.Decide.{ℕ_discrete}
