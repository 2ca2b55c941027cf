-- ===== src/Prelude/Hex.antt =====
-- `%x` of bytes: two lowercase digits for each.
use Prim.Native.Nat.{ℕ, ◌+◌, ◌-◌, ◌/◌, ◌%◌}
use mathlib.Core.List.{[], ◌∷◌}
use qnx8_qconn_mcp.Prelude.Tests.{ltb, if◌then◌else◌}
use qnx8_qconn_mcp.Prelude.Word.{Bytes}

unfoldable pub hex_digit : ℕ → ℕ
hex_digit d = if ltb d 10 then b'0' + d else b'a' + (d - 10)

unfoldable pub to_hex : Bytes → Bytes
unfolding hex_digit
to_hex [] = []
to_hex (c ∷ b) = hex_digit (c / 16) ∷ hex_digit (c % 16) ∷ to_hex b
