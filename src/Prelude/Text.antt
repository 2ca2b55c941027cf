-- ===== src/Prelude/Text.antt =====
-- Tests and searches on texts, as `strings` has them.
use Prim.Native.Nat.{ℕ, zero, suc, ◌/◌, ◌%◌}
use mathlib.Core.Path.{◌≡◌, refl}
use mathlib.Core.Bool.{Bool, true, false, ◌&&◌}
use mathlib.Core.List.{List, [], ◌∷◌}
use mathlib.Core.Option.{Option, none, some}
use native.Mathlib.Omega.{arith}
use qnx8_qconn_mcp.Prelude.Tests.{ltb, ◌==◌, if◌then◌else◌}
use qnx8_qconn_mcp.Prelude.Word.{Bytes, ℤ, pos, negsuc}
use qnx8_qconn_mcp.Prelude.Hex.{hex_digit}

-- `a == b` on texts.
unfoldable pub same : Bytes → Bytes → Bool
same [] [] = true
same (x ∷ a) (y ∷ b) = (x == y) && same a b
same _ _ = false

pub same_refl : (a : Bytes) → same a a ≡ true
unfolding same
same_refl [] = refl
same_refl (x ∷ a) = ground (arith, same_refl a)

-- `strings.HasPrefix(s, start)`
unfoldable pub has_prefix : Bytes → Bytes → Bool
has_prefix s [] = true
has_prefix [] (x ∷ start) = false
has_prefix (c ∷ s) (x ∷ start) = (c == x) && has_prefix s start

-- `strings.Split(s, sep)` at one byte: the piece before the first separator, and the later ones.
unfoldable pub cut_at : ℕ → Bytes → Bytes × List Bytes
cut_at sep [] = ([], [])
cut_at sep (c ∷ s) =
    let (piece, pieces) = cut_at sep s in
    if c == sep then ([], piece ∷ pieces) else (c ∷ piece, pieces)

unfoldable pub split : ℕ → Bytes → List Bytes
split sep s = (cut_at sep s).0 ∷ (cut_at sep s).1

-- `strings.Cut(s, sep)` at one byte: what stands before and behind the first separator.
unfoldable pub cut_once : ℕ → Bytes → Option (Bytes × Bytes)
cut_once sep [] = none
cut_once sep (c ∷ s) = elim (c == sep) [
  | true ↦ some ([], s)
  | false ↦ elim (cut_once sep s) [ none ↦ none | some (a, b) ↦ some (c ∷ a, b) ]
]

-- `%x` of a natural number, on fuel; a number has fewer digits than its successor.
unfoldable pub hex_digits_onto : ℕ → ℕ → Bytes → Bytes
hex_digits_onto zero n out = out
hex_digits_onto (suc fuel) n out =
    let more = hex_digits_onto fuel (n / 16) (hex_digit (n % 16) ∷ out) in
    if ltb n 16 then hex_digit n ∷ out else more

unfoldable pub to_hex_number : ℕ → Bytes
to_hex_number n = hex_digits_onto (suc n) n []

-- A sign in front of what a negative number's absolute value prints.
unfoldable pub signed : (ℕ → Bytes) → ℤ → Bytes
signed digits (pos n) = digits n
signed digits (negsuc n) = b'-' ∷ digits (suc n)
