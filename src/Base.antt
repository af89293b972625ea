-- ===== src/Base.antt =====
-- The names that every component shares: the libraries', passed on, with Boolean tests and lists
-- over the native numbers. No code of the repository is modelled here.
mod Tests
mod Lists
mod First
pub use Tests.*
unfoldable pub use First.*
unfoldable pub use Lists.*
pub use Prim.Native.Nat.{ℕ, zero, suc, ◌+◌, ◌-◌, ◌*◌, ◌/◌, ◌%◌, ◌^◌, ◌≤◌, ◌<◌}
pub use Prim.Native.String.{String}
pub use mathlib.Core.Path.{◌≡◌, refl, sym, ap, subst, ◌∙◌}
pub use mathlib.Core.Logic.{◌≢◌, ◌↔◌, ◌⊎◌, inl, inr}
pub use mathlib.Core.Bool.{Bool, true, false, not, ◌&&◌, ◌||◌}
pub use mathlib.Core.Option.{Option, none, some}
pub use mathlib.Core.List.{List, [], ◌∷◌, ◌++◌, map, append_assoc, append-nil}
pub use native.Mathlib.Omega.{arith}

-- Go's `int` and `int64` where they can be negative.
pub data ℤ : Type 0 where
  pos negsuc : ℕ → ℤ
