-- ===== src/Prelude/HexNumber.antt =====
-- What `%x` prints of a number is read back.
use Prim.Native.Nat.{ℕ, zero, suc, ◌+◌, ◌*◌, ◌/◌, ◌%◌, ◌^◌, ◌<◌, ◌≤◌}
use mathlib.Core.Path.{◌≡◌, refl, sym, ◌∙◌}
use mathlib.Core.Logic.{◌≢◌, inl, inr}
use mathlib.Core.List.{[], ◌∷◌}
use mathlib.Core.Option.{some}
use native.Mathlib.Omega.{arith}
use qnx8_qconn_mcp.Prelude.Tests.{ltb, Bool-cases, ltb→lt, ltb→le}
use qnx8_qconn_mcp.Prelude.Lists.{All}
use qnx8_qconn_mcp.Prelude.Word.{Bytes, IsByte}
use qnx8_qconn_mcp.Prelude.Hex.{hex_digit}
use qnx8_qconn_mcp.Prelude.Text.{hex_digits_onto, to_hex_number}
use qnx8_qconn_mcp.Prelude.Number.{number, hex_value, hex_from, parse_hex}

hex_value-hex_digit : (d : ℕ) → d < 16 → hex_value (hex_digit d) ≡ some d
unfolding hex_value hex_digit
hex_value-hex_digit d h = ground arith

hex_from-hex_digit :
    (n d : ℕ) (out : Bytes)
    → d < 16
    → n < 2 ^ 60
    → hex_from n (hex_digit d ∷ out) ≡ hex_from (n * 16 + d) out
unfolding hex_from
hex_from-hex_digit n d out h small = rw (hex_value-hex_digit d h, hex_from) (ground arith)

hex_from-digits :
    (fuel n : ℕ) (out : Bytes)
    → n < fuel
    → n < 2 ^ 64
    → hex_from 0 (hex_digits_onto fuel n out) ≡ hex_from n out
unfolding hex_digits_onto
hex_from-digits zero n out f h = absurd (omega arith)
hex_from-digits (suc fuel) n out f h = elim (Bool-cases (ltb n 16)) [
  | inl e ↦
      let plain : 0 * 16 + n ≡ n = omega arith in
      rw e (hex_from-hex_digit 0 n out (ltb→lt n 16 e) (omega arith) ∙ rw plain)
  | inr e ↦
      let big = ltb→le n 16 e in
      let whole : n / 16 * 16 + n % 16 ≡ n = omega arith in
      rw e (
        hex_from-digits fuel (n / 16) (hex_digit (n % 16) ∷ out) (omega (arith, big)) (omega arith)
        ∙ hex_from-hex_digit (n / 16) (n % 16) out (omega arith) (omega arith)
        ∙ rw whole)
]

-- A digit is a byte, and none of the separators of a request.
abbrev pub IsDigit : ℕ → Type 0
IsDigit c = (c ≢ b',') × IsByte c

hex_digit-IsDigit : (d : ℕ) → d < 16 → IsDigit (hex_digit d)
unfolding hex_digit
hex_digit-IsDigit d h = ground arith

-- What holds of every digit holds of all that `%x` prints.
module _ {ℓ} (Q : ℕ → Type ℓ) (digit : (d : ℕ) → d < 16 → Q (hex_digit d)) where
  digits-All : (fuel n : ℕ) (out : Bytes) → All Q out → All Q (hex_digits_onto fuel n out)
  unfolding hex_digits_onto
  digits-All zero n out h = h
  digits-All (suc fuel) n out h = elim (Bool-cases (ltb n 16)) [
    | inl e ↦ rw e (digit n (ltb→lt n 16 e), h)
    | inr e ↦
        rw e (digits-All fuel (n / 16) (hex_digit (n % 16) ∷ out) (digit (n % 16) (omega arith), h))
  ]

  pub to_hex_number-All : (n : ℕ) → All Q (to_hex_number n)
  unfolding to_hex_number
  to_hex_number-All n = digits-All (suc n) n [] tt

pub to_hex_number-IsDigit : (n : ℕ) → All IsDigit (to_hex_number n)
to_hex_number-IsDigit = to_hex_number-All IsDigit hex_digit-IsDigit

-- Where a digit lies among the bytes.
abbrev pub IsHexDigit : ℕ → Type 0
IsHexDigit c = (b'0' ≤ c) × (c ≤ b'f') × (c ≢ b':')

hex_digit-IsHexDigit : (d : ℕ) → d < 16 → IsHexDigit (hex_digit d)
unfolding hex_digit
hex_digit-IsHexDigit d h = ground arith

pub to_hex_number-IsHexDigit : (n : ℕ) → All IsHexDigit (to_hex_number n)
to_hex_number-IsHexDigit = to_hex_number-All IsHexDigit hex_digit-IsHexDigit

parse_hex-hex_from : (c : ℕ) (s : Bytes) → parse_hex (c ∷ s) ≡ hex_from 0 (c ∷ s)
unfolding parse_hex
parse_hex-hex_from c s = refl

digits-cons :
    (fuel n d : ℕ) (out : Bytes)
    → (c : ℕ) × (s : Bytes) × (hex_digits_onto fuel n (d ∷ out) ≡ c ∷ s)
unfolding hex_digits_onto
digits-cons zero n d out = (d, out, refl)
digits-cons (suc fuel) n d out = elim (Bool-cases (ltb n 16)) [
  | inl e ↦ (hex_digit n, d ∷ out, rw e)
  | inr e ↦ rw e (digits-cons fuel (n / 16) (hex_digit (n % 16)) (d ∷ out))
]

number-cons : (n : ℕ) → (c : ℕ) × (s : Bytes) × (hex_digits_onto (suc n) n [] ≡ c ∷ s)
unfolding hex_digits_onto
number-cons n = elim (Bool-cases (ltb n 16)) [
  | inl e ↦ (hex_digit n, [], rw e)
  | inr e ↦ rw e (digits-cons n (n / 16) (hex_digit (n % 16)) [])
]

pub to_hex_number-cons : (n : ℕ) → (c : ℕ) × (s : Bytes) × (to_hex_number n ≡ c ∷ s)
unfolding to_hex_number
to_hex_number-cons n = number-cons n

-- The number that `%x` has printed is read back, if it is an `uint64`.
pub parse_hex-to_hex_number : (n : ℕ) → n < 2 ^ 64 → parse_hex (to_hex_number n) ≡ number n
unfolding to_hex_number
parse_hex-to_hex_number n h =
    let (c, s, e) = number-cons n in
    rw e (
      parse_hex-hex_from c s
      ∙ rw (sym e) (hex_from-digits (suc n) n [] (omega arith) h ∙ unfold hex_from in refl))
