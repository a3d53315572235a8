-- ===== src/Base.antt =====
-- The names that the other modules share: the libraries', passed on, and those of the children,
-- which model what the program takes from Go (byte strings, maps, errors, int) and no file of it.
mod Tests
mod Lists
mod Strings
pub mod Int
mod Errors
pub use Tests.*
pub use Lists.*
unfoldable pub use Strings.{
  ◌==◌, has_prefix, cut_prefix, has_suffix, cut, contains, split_all, split_n, lookup, insert,
}
pub use Strings.{
  Text, codes, eq_iff, eq_refl, eq_ne, cut_prefix_cases, has_prefix_iff, has_suffix_iff,
  has_prefix-append, has_prefix_lem, cut_cases, Lacks, cut-append, contains_iff, lookup_or,
  lookup-insert, HasDistinctKeys, HasDistinctKeys-insert,
}
unfoldable pub use Errors.{is_not_found}
pub use Errors.{Error, host, not_found, panic, errorf, wrapf, Result, ok, err, Result-cases, wrap}
pub use Prim.Native.Nat.{ℕ, zero, suc, ◌+◌, ◌-◌, ◌*◌, ◌≤◌, ◌<◌}
pub use Prim.Native.String.{String}
pub use mathlib.Core.Path.{◌≡◌, refl, sym, ap, subst, fun_ext, ◌∙◌, ◌≡⟨◌⟩◌, ◌∎}
pub use mathlib.Core.Logic.{◌≢◌, ◌↔◌, ◌⊎◌, inl, inr}
pub use mathlib.Core.Bool.{Bool, true, false, not, ◌&&◌, ◌||◌}
pub use mathlib.Core.Option.{Option, none, some}
pub use mathlib.Core.List.{List, [], ◌∷◌, ◌++◌, map, append_assoc, append-nil}
pub use native.Mathlib.Omega.{arith}
