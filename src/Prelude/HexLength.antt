-- ===== src/Prelude/HexLength.antt =====
-- How many digits `%x` prints.
use Prim.Native.Nat.{ℕ, zero, suc, ◌+◌, ◌/◌, ◌%◌, ◌^◌, ◌<◌, ◌≤◌}
use mathlib.Core.Logic.{inl, inr}
use mathlib.Core.List.{[], ◌∷◌}
use native.Mathlib.Omega.{arith}
use qnx8_qconn_mcp.Prelude.Tests.{ltb, Bool-cases, ltb→le}
use qnx8_qconn_mcp.Prelude.Lists.{length}
use qnx8_qconn_mcp.Prelude.Word.{Bytes}
use qnx8_qconn_mcp.Prelude.Hex.{hex_digit}
use qnx8_qconn_mcp.Prelude.Text.{hex_digits_onto, to_hex_number}

-- A number of `k` hexadecimal digits at most.
abbrev HasDigits : ℕ → ℕ → Type 0
HasDigits zero n = n < 1
HasDigits (suc k) n = HasDigits k (n / 16)

length-digits :
    (k fuel n : ℕ) (out : Bytes)
    → HasDigits (suc k) n
    → length (hex_digits_onto fuel n out) ≤ suc k + length out
unfolding hex_digits_onto
length-digits k zero n out h = omega arith
length-digits zero (suc fuel) n out h = elim (Bool-cases (ltb n 16)) [
  | inl e ↦ rw e (omega arith)
  | inr e ↦ absurd (omega (arith, ltb→le n 16 e))
]
length-digits (suc k) (suc fuel) n out h = elim (Bool-cases (ltb n 16)) [
  | inl e ↦ rw e (omega arith)
  | inr e ↦ rw e (omega (arith, length-digits k fuel (n / 16) (hex_digit (n % 16) ∷ out) h))
]

-- A number below 2 ^ 64 has sixteen digits at most.
pub length-to_hex_number : (n : ℕ) → n < 2 ^ 64 → length (to_hex_number n) ≤ 16
unfolding to_hex_number
length-to_hex_number n h = omega (arith, length-digits 15 (suc n) n [] (omega arith))
