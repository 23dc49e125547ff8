-- ===== src/Common.antt =====
-- The names that every component shares: the libraries', passed on, the Boolean tests on native
-- numbers, lists measured by native numbers, and the outcomes of the C++ code that can throw.
pub mod Tests
pub mod Lists
pub mod Outcomes
pub mod Perms
pub mod Int
pub mod OrderedMap
pub mod Steps
pub mod TextMap
pub use Tests.{ltb, leb, ◌==◌, if◌then◌else◌, Bool-cases, same, ltb→lt, leb→le}
pub use Lists.{
  length, get_elem?, set, All, length-append, length-map, get_elem?_in, All-get_elem?, length-set,
  get_elem?-set_self, get_elem?-set_ne, get_elem?-lt, replicate, length-replicate,
}
pub use Outcomes.{
  Error, Result, ok, err, ◌>>=◌, at, read, front_size, collect, >>=-eq-ok, Result-cases,
  Option-cases,
}
pub use Perms.{Perm-length, Perm-All}
pub use Prim.Native.Nat.{ℕ, zero, suc, ◌+◌, ◌-◌, ◌*◌, ◌/◌, ◌%◌, ◌^◌, ◌≤◌, ◌<◌}
pub use mathlib.Core.Path.{◌≡◌, refl, sym, ap, ◌∙◌, subst}
pub use mathlib.Core.Logic.{◌≢◌, ◌↔◌, ◌⊎◌, inl, inr}
pub use mathlib.Core.Bool.{Bool, true, false, not, ◌&&◌, ◌||◌}
pub use mathlib.Core.Option.{Option, none, some}
pub use mathlib.Core.List.{List, [], ◌∷◌, ◌++◌, map}
pub use native.Mathlib.Omega.{arith}
