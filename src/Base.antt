-- ===== src/Base.antt =====
-- What every component shares: the names of the libraries, tests on numbers, lists measured by
-- native numbers, C memory as a function from addresses to bytes, machine words, the status codes
-- and the result of code that may wait or run into undefined behaviour.
mod Tests
mod Lists
mod Memory
mod Word
mod Codes
mod Results
pub use Tests.*
pub use Lists.*
unfoldable pub use Memory.*
pub use Word.*
pub use Codes.*
pub use Results.*
pub use Prim.Native.Nat.{ℕ, zero, suc, ◌+◌, ◌-◌, ◌*◌, ◌/◌, ◌%◌, ◌^◌, ◌≤◌, ◌<◌}
pub use mathlib.Core.Path.{◌≡◌, refl, sym, ap, ◌∙◌, subst}
pub use mathlib.Core.Logic.{◌≢◌, ◌↔◌, ◌⊎◌, inl, inr}
pub use mathlib.Core.Bool.{Bool, true, false, not, ◌&&◌, ◌||◌}
pub use mathlib.Core.Option.{Option, none, some}
pub use mathlib.Core.List.{List, [], ◌∷◌, ◌++◌, map}
pub use native.Mathlib.Omega.{arith}
pub use native.Mathlib.Decide.{dec_lt, dec_le}
