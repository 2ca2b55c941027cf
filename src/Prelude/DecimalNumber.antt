-- ===== src/Prelude/DecimalNumber.antt =====
-- What `%d` prints of a number determines it.
use Prim.Native.Nat.{ℕ, zero, suc, ◌+◌, ◌-◌, ◌*◌, ◌/◌, ◌%◌, ◌<◌}
use mathlib.Core.Path.{◌≡◌, sym, ap, ◌∙◌}
use mathlib.Core.Logic.{inl, inr}
use mathlib.Core.List.{[], ◌∷◌}
use native.Mathlib.Omega.{arith}
use qnx8_qconn_mcp.Prelude.Tests.{ltb, Bool-cases, ltb→le}
use qnx8_qconn_mcp.Prelude.Word.{Bytes}
use qnx8_qconn_mcp.Prelude.Decimal.{digits_onto, to_decimal}

-- The number that digits stand for, behind the value `n`.
abbrev dec_value : ℕ → Bytes → ℕ
dec_value n [] = n
dec_value n (c ∷ s) = dec_value (n * 10 + (c - b'0')) s

dec_value-digit :
    (n d : ℕ) (out : Bytes) → dec_value n ((b'0' + d) ∷ out) ≡ dec_value (n * 10 + d) out
dec_value-digit n d out = let e : b'0' + d - b'0' ≡ d = omega arith in rw e

dec_value-digits :
    (fuel n : ℕ) (out : Bytes) → n < fuel → dec_value 0 (digits_onto fuel n out) ≡ dec_value n out
unfolding digits_onto
dec_value-digits zero n out f = absurd (omega arith)
dec_value-digits (suc fuel) n out f = elim (Bool-cases (ltb n 10)) [
  | inl e ↦ let plain : 0 * 10 + n ≡ n = omega arith in rw e (dec_value-digit 0 n out ∙ rw plain)
  | inr e ↦
      let big = ltb→le n 10 e in
      let whole : n / 10 * 10 + n % 10 ≡ n = omega arith in
      rw e (
        dec_value-digits fuel (n / 10) ((b'0' + n % 10) ∷ out) (omega (arith, big))
        ∙ dec_value-digit (n / 10) (n % 10) out
        ∙ rw whole)
]

pub to_decimal_injective : (a b : ℕ) → to_decimal a ≡ to_decimal b → a ≡ b
unfolding to_decimal
to_decimal_injective a b h =
    sym (dec_value-digits (suc a) a [] (omega arith))
    ∙ ap (dec_value 0) h
    ∙ dec_value-digits (suc b) b [] (omega arith)
