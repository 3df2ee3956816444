-- ===== src/Common.antt =====
-- Names that every module shares: the libraries', passed on, Boolean tests, lists measured by
-- native numbers, the 64-bit unsigned arithmetic of `quint64`, and cancellation tokens.
mod Tests
mod Lists
mod Words
mod Tokens
pub mod Int
pub use Tests.*
pub use Lists.*
pub use Words.*
pub use Tokens.*
pub use Prim.Native.Nat.{ℕ, zero, suc, ◌+◌, ◌-◌, ◌*◌, ◌/◌, ◌%◌, ◌^◌, ◌≤◌, ◌<◌, min, max}
pub use Prim.Native.String.{String}
pub use mathlib.Core.Path.{◌≡◌, refl, sym, ap, ◌∙◌, subst, ap₂}
pub use mathlib.Core.Logic.{◌≢◌, ◌↔◌, ◌⊎◌, inl, inr}
pub use mathlib.Core.Bool.{Bool, true, false, not, ◌&&◌, ◌||◌}
pub use mathlib.Core.Option.{Option, none, some}
pub use mathlib.Core.List.{List, [], ◌∷◌, ◌++◌, append-nil, append_assoc}
pub use native.Mathlib.Omega.{arith}
