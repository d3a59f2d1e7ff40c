-- ===== src/Common.antt =====
-- The names that the other modules share: the libraries', passed on, and those of the children.
mod Tests
mod Texts
mod Lists
mod Inserted
pub use Tests.*
unfoldable pub use Texts.{text_eq, mem, distinct, count, disjoint}
pub use Texts.{
  Text, codes, text_eq_sound, text_eq_refl, text_eq_complete, text_eq_iff, mem-append,
  distinct-append, mem_ne, count-append, count_of_not_mem, not_mem_of_count, count_of_distinct,
  not_mem_of_disjoint, count_le_one_of_distinct, count_of_mem, distinct_of_count,
}
pub use Lists.*
pub use Inserted.*
pub use Prim.Native.Nat.{ℕ, zero, suc, ◌+◌, ◌-◌, ◌*◌, ◌≤◌, ◌<◌}
pub use Prim.Native.String.{String}
pub use mathlib.Core.Path.{◌≡◌, refl, sym, ap, ap₂, ◌∙◌, fun_ext, subst}
pub use mathlib.Core.Logic.{◌≢◌, ◌↔◌, ◌⊎◌, inl, inr}
pub use mathlib.Core.Bool.{Bool, true, false, not, ◌&&◌, ◌||◌}
pub use mathlib.Core.Option.{Option, none, some}
pub use mathlib.Core.List.{List, [], ◌∷◌, ◌++◌, map, append_assoc, append-nil}
pub use native.Mathlib.Omega.{arith}
