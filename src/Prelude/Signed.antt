-- ===== src/Prelude/Signed.antt =====
-- `int64`, as the bit pattern of its 64 bits, and `strconv.ParseInt(s, 16, 64)`.
use Prim.Native.Nat.{ℕ, zero, suc, ◌+◌, ◌-◌, ◌*◌, ◌^◌}
use mathlib.Core.Bool.{Bool, true, false, ◌||◌}
use mathlib.Core.List.{[], ◌∷◌}
use qnx8_qconn_mcp.Prelude.Tests.{ltb, leb, ◌==◌, if◌then◌else◌}
use qnx8_qconn_mcp.Prelude.Word.{Bytes, ℤ, pos, negsuc}
use qnx8_qconn_mcp.Prelude.Text.{to_hex_number, signed}
use qnx8_qconn_mcp.Prelude.Number.{Parsed, number, bad_syntax, out_of_range, parse_hex}

-- The number that 64 bits stand for.
unfoldable pub int64 : ℕ → ℤ
int64 v = if ltb v (2 ^ 63) then pos v else negsuc (2 ^ 64 - 1 - v)

-- `%x` of an `int64`
unfoldable pub hex_int64 : ℕ → Bytes
hex_int64 v = signed to_hex_number (int64 v)

-- A signed number that was read, its error being one of two.
pub data ParsedInt : Type 0 where
  integer : ℤ → ParsedInt
  int_syntax : ParsedInt
  int_range : Bool → ParsedInt

-- What `ParseInt` makes of the magnitude: true is the sign.
unfoldable pub with_sign : Bool → Parsed → ParsedInt
with_sign minus bad_syntax = int_syntax
with_sign minus out_of_range = int_range minus
with_sign false (number n) = if ltb n (2 ^ 63) then integer (pos n) else int_range false
with_sign true (number zero) = integer (pos zero)
with_sign true (number (suc n)) = if ltb n (2 ^ 63) then integer (negsuc n) else int_range true

unfoldable pub parse_int : Bytes → ParsedInt
parse_int [] = int_syntax
parse_int (c ∷ s) =
    if c == b'-'
    then with_sign true (parse_hex s)
    else if c == b'+'
    then with_sign false (parse_hex s)
    else with_sign false (parse_hex (c ∷ s))

-- The digits of a decimal number behind the value `n`.
unfoldable pub dec_from : ℕ → Bytes → Parsed
dec_from n [] = number n
dec_from n (c ∷ s) =
    let n' = n * 10 + (c - b'0') in
    let more = dec_from n' s in
    if ltb c b'0' || ltb b'9' c then bad_syntax else if leb (2 ^ 64) n' then out_of_range else more

unfoldable pub parse_dec : Bytes → Parsed
parse_dec [] = bad_syntax
parse_dec (c ∷ s) = dec_from 0 (c ∷ s)

-- `strconv.Atoi(s)`
unfoldable pub atoi : Bytes → ParsedInt
atoi [] = int_syntax
atoi (c ∷ s) =
    if c == b'-'
    then with_sign true (parse_dec s)
    else if c == b'+'
    then with_sign false (parse_dec s)
    else with_sign false (parse_dec (c ∷ s))

-- The first result of the call, which stands beside an error too.
unfoldable pub int_value : ParsedInt → ℤ
int_value (integer z) = z
int_value int_syntax = pos 0
int_value (int_range false) = pos (2 ^ 63 - 1)
int_value (int_range true) = negsuc (2 ^ 63 - 1)
