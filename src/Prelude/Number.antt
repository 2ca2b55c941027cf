-- ===== src/Prelude/Number.antt =====
-- `strconv.ParseUint(s, 16, 64)`.
use Prim.Native.Nat.{ℕ, ◌+◌, ◌-◌, ◌*◌, ◌^◌}
use mathlib.Core.Bool.{◌&&◌}
use mathlib.Core.List.{[], ◌∷◌}
use mathlib.Core.Option.{Option, none, some}
use qnx8_qconn_mcp.Prelude.Tests.{leb, if◌then◌else◌}
use qnx8_qconn_mcp.Prelude.Word.{Bytes}

-- A number, or the error, which is one of the two that `strconv` tells apart.
pub data Parsed : Type 0 where
  number : ℕ → Parsed
  bad_syntax : Parsed
  out_of_range : Parsed

unfoldable pub hex_value : ℕ → Option ℕ
hex_value c =
    if leb b'0' c && leb c b'9'
    then some (c - b'0')
    else if leb b'a' c && leb c b'f'
    then some (c - b'a' + 10)
    else if leb b'A' c && leb c b'F'
    then some (c - b'A' + 10)
    else none

-- The digits behind the value `n`.
unfoldable pub hex_from : ℕ → Bytes → Parsed
hex_from n [] = number n
hex_from n (c ∷ s) = elim (hex_value c) [
  | none ↦ bad_syntax
  | some d ↦ let more = hex_from (n * 16 + d) s in if leb (2 ^ 60) n then out_of_range else more
]

unfoldable pub parse_hex : Bytes → Parsed
parse_hex [] = bad_syntax
parse_hex (c ∷ s) = hex_from 0 (c ∷ s)

-- The first result of the call, which stands beside an error too.
unfoldable pub value_of : Parsed → ℕ
value_of (number n) = n
value_of bad_syntax = 0
value_of out_of_range = 2 ^ 64 - 1
