-- ===== src/Prelude.antt =====
-- The names that the components share: the libraries', passed on, and those of the children.
mod Tests
mod Lists
mod Errors
mod ByteSlices
mod Bits
mod Compare
mod Members
pub use Tests.*
pub use Lists.*
pub use Errors.*
pub use Bits.*
unfoldable pub use Compare.{bytes_less}
unfoldable pub use Members.{contains}
pub use Members.{contains-append}
pub use Compare.{bytes_less_irrefl, bytes_less_trans, bytes_less_connex}
unfoldable pub use ByteSlices.{Bytes, IsByte, IsU32, IsU64, put_be, get_be, bytes_eq}
pub use ByteSlices.{
  field_front, field_skip, length-put_be, put_be-IsByte, get_be-put_be, put_be-get_be, get_be-lt,
  get_be-ge, bytes_eq_iff, bytes_eq_refl,
}
pub use Prim.Native.Nat.{ℕ, zero, suc, ◌+◌, ◌-◌, ◌*◌, ◌/◌, ◌%◌, ◌^◌, ◌≤◌, ◌<◌, min}
pub use mathlib.Core.Path.{◌≡◌, refl, sym, ap, ap₂, subst, ◌∙◌}
pub use mathlib.Core.Logic.{◌≢◌, ◌↔◌, ◌⊎◌, inl, inr}
pub use mathlib.Core.Bool.{Bool, true, false, ◌&&◌, ◌||◌, not}
pub use mathlib.Core.Option.{Option, none, some}
pub use mathlib.Core.List.{List, [], ◌∷◌, ◌++◌, append-nil, append_assoc}
pub use Prim.Native.Nat.{bit_and, bit_or}
pub use native.Mathlib.Omega.{arith}
