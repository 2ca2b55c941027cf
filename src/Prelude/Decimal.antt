-- ===== src/Prelude/Decimal.antt =====
-- `%d` of a natural number, by recursion on fuel; a number has fewer digits than its successor.
use Prim.Native.Nat.{ℕ, zero, suc, ◌+◌, ◌/◌, ◌%◌}
use mathlib.Core.List.{[], ◌∷◌}
use qnx8_qconn_mcp.Prelude.Tests.{ltb, if◌then◌else◌}
use qnx8_qconn_mcp.Prelude.Word.{Bytes}

-- The digits of `n` in front of `out`.
unfoldable pub digits_onto : ℕ → ℕ → Bytes → Bytes
digits_onto zero n out = out
digits_onto (suc fuel) n out =
    let more = digits_onto fuel (n / 10) ((b'0' + n % 10) ∷ out) in
    if ltb n 10 then (b'0' + n) ∷ out else more

unfoldable pub to_decimal : ℕ → Bytes
unfolding digits_onto
to_decimal n = digits_onto (suc n) n []
