-- ===== src/Prelude.antt =====
-- The names that the other modules share: the libraries' and those of the three children.
mod Tests
mod Lists
mod Maps
pub use Tests.*
pub use Lists.{length, take, drop, length-append, take_append, Bytes, codes, bytes_eq_iff}
unfoldable pub use Lists.{bytes_eq, starts_with, get_elem?, set}
unfoldable pub use Maps.{lookup, insert, remove}
pub use Maps.{lookup-insert, lookup-insert_other}
pub use Prim.Native.Nat.{ℕ, zero, suc, ◌+◌, ◌-◌, ◌*◌, ◌/◌, ◌%◌, ◌^◌, ◌≤◌, ◌<◌}
pub use Prim.Native.String.{String}
pub use mathlib.Core.Path.{◌≡◌, refl, sym, ap, ◌∙◌}
pub use mathlib.Core.Logic.{◌≢◌, ◌↔◌, ◌⊎◌, inl, inr}
pub use mathlib.Core.Bool.{Bool, true, false, not, ◌&&◌, ◌||◌}
pub use mathlib.Core.Option.{Option, none, some}
pub use mathlib.Core.List.{List, [], ◌∷◌, ◌++◌, map, append-nil, append_assoc}
pub use native.Mathlib.Omega.{arith}
