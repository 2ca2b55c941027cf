-- ===== src/Prelude.antt =====
-- Names that every other module shares: the libraries', passed on, and those of the children.
mod Tests
mod Lists
mod Word
mod Results
mod Hex
mod Decimal
mod Text
mod Number
mod HexNumber
mod HexLength
mod Signed
mod Maps
mod DecimalNumber
unfoldable pub use Tests.*
pub use Lists.*
pub use Word.*
pub use Results.*
unfoldable pub use Text.*
pub use HexNumber.*
pub use HexLength.*
unfoldable pub use Signed.*
unfoldable pub use Maps.*
pub use DecimalNumber.*
unfoldable pub use Number.*
unfoldable pub use Hex.{hex_digit, to_hex}
unfoldable pub use Decimal.{digits_onto, to_decimal}
pub use Prim.Native.Nat.{ℕ, zero, suc, ◌+◌, ◌-◌, ◌*◌, ◌/◌, ◌%◌, ◌^◌, ◌≤◌, ◌<◌, min, bit_xor}
pub use mathlib.Core.Path.{◌≡◌, refl, sym, ap, ◌∙◌}
pub use mathlib.Core.Logic.{◌≢◌, ◌↔◌, ◌⊎◌, inl, inr}
pub use mathlib.Core.Bool.{Bool, true, false, not, ◌&&◌, ◌||◌}
pub use mathlib.Core.Option.{Option, none, some}
pub use mathlib.Core.List.{List, [], ◌∷◌, ◌++◌, append-nil, append_assoc}
pub use native.Mathlib.Omega.{arith}
