-- ===== src/Prelude/Word.antt =====
-- Bytes, machine integers, and the little-endian encoders of `encoding/binary`.
use Prim.Native.Nat.{ℕ, ◌+◌, ◌-◌, ◌*◌, ◌%◌, ◌^◌, ◌<◌, bit_xor}
use mathlib.Core.Bool.{Bool, ◌&&◌, true}
use native.Mathlib.Omega.{arith}
use mathlib.Core.Path.{◌≡◌, refl}
use mathlib.Core.Bool.{true}
use mathlib.Core.List.{List, ◌∷◌}
use qnx8_qconn_mcp.Prelude.Lists.{All}
use qnx8_qconn_mcp.Prelude.Tests.{ltb, ◌==◌, passes_below, passes_below_at}

abbrev pub Bytes : Type 0
Bytes = List ℕ

abbrev pub IsByte : ℕ → Type 0
IsByte b = b < 256

abbrev pub AreBytes : Bytes → Type 0
AreBytes = All IsByte

-- A Go `int`; `negsuc n` is -(n + 1).
pub data ℤ : Type 0 where
  pos : ℕ → ℤ
  negsuc : ℕ → ℤ

-- `uint32(x)` and `uint16(x)` of a signed number.
abbrev pub to_uint : ℕ → ℤ → ℕ
to_uint m (pos n) = n % m
to_uint m (negsuc n) = m - 1 - n % m

abbrev pub uint32 : ℤ → ℕ
uint32 = to_uint (2 ^ 32)

abbrev pub uint16 : ℤ → ℕ
uint16 = to_uint (2 ^ 16)

-- `binary.LittleEndian`'s `Uint16`, `Uint32` and `Uint64` read a prefix, and panic on a shorter
-- slice; every caller tests the length first, so no value stands for the panic here.
abbrev pub u16 : Bytes → ℕ
u16 (a ∷ b ∷ r) = a + b * 2 ^ 8
u16 _ = 0

abbrev pub u32 : Bytes → ℕ
u32 (a ∷ b ∷ c ∷ d ∷ r) = a + b * 2 ^ 8 + c * 2 ^ 16 + d * 2 ^ 24
u32 _ = 0

abbrev pub u64 : Bytes → ℕ
u64 (a ∷ b ∷ c ∷ d ∷ r) = a + b * 2 ^ 8 + c * 2 ^ 16 + d * 2 ^ 24 + u32 r * 2 ^ 32
u64 _ = 0

-- What escaping needs of the exclusive or with the escape bit.
abbrev escapes_well : ℕ → Bool
escapes_well x = (bit_xor (bit_xor x 0x20) 0x20 == x) && ltb (bit_xor x 0x20) 256

every_byte : passes_below escapes_well 256 ≡ true
unfolding passes_below
every_byte = refl

pub xor-xor : (x : ℕ) → IsByte x → bit_xor (bit_xor x 0x20) 0x20 ≡ x
xor-xor x h = let fine = passes_below_at escapes_well 256 h every_byte in ground arith

pub xor-IsByte : (x : ℕ) → IsByte x → IsByte (bit_xor x 0x20)
xor-IsByte x h = let fine = passes_below_at escapes_well 256 h every_byte in ground arith
