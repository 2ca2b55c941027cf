-- ===== src/Debug/Codec.antt =====
-- internal/debug/rsp.go: checksum, escaping, run-length decoding, and hexadecimal.
pub mod RoundTrip
use qnx8_qconn_mcp.Prelude.{
  ℕ, ◌+◌, ◌-◌, ◌*◌, ◌/◌, ◌%◌, bit_xor, Bool, true, false, ◌||◌, ◌&&◌, [], ◌∷◌, ◌++◌, Option, none,
  some, Bytes, ◌==◌, ltb, leb, if◌then◌else◌, replicate, hex_digit,
}

unfoldable pub sum_bytes : ℕ → Bytes → ℕ
sum_bytes s [] = s
sum_bytes s (b ∷ p) = sum_bytes ((s + b) % 256) p

unfoldable pub checksum : Bytes → ℕ
checksum p = sum_bytes 0 p

-- the cases of the switch in `escape`
abbrev pub is_special : ℕ → Bool
is_special b = b == b'$' || b == b'#' || b == b'}' || b == b'*'

unfoldable pub escape_byte : ℕ → Bytes
escape_byte b = if is_special b then b'}' ∷ bit_xor b 0x20 ∷ [] else b ∷ []

unfoldable pub escape : Bytes → Bytes
escape [] = []
escape (b ∷ p) = escape_byte b ++ escape p

-- `out[len(out)-1]`, where there is one
unfoldable pub last_of : Bytes → Option ℕ
last_of [] = none
last_of (b ∷ []) = some b
last_of (b ∷ (c ∷ r)) = last_of (c ∷ r)

-- The loop of `decode` behind the output `out`. A mark that ends the input is dropped, and so is a
-- `*` that has nothing to repeat; a count of 29 or less repeats nothing.
unfoldable pub decode_onto : Bytes → Bytes → Bytes
decode_onto out [] = out
decode_onto out (c ∷ []) = if c == b'}' || c == b'*' then out else out ++ c ∷ []
decode_onto out (c ∷ (d ∷ p)) = elim (c == b'}') [
  | true ↦ decode_onto (out ++ bit_xor d 0x20 ∷ []) p
  | false ↦ elim (c == b'*') [
    | true ↦ elim (last_of out) [
      | none ↦ decode_onto out (d ∷ p)
      | some l ↦ decode_onto (out ++ replicate (d - 29) l) p
    ]
    | false ↦ decode_onto (out ++ c ∷ []) (d ∷ p)
  ]
]

unfoldable pub decode : Bytes → Bytes
decode p = decode_onto [] p

unfoldable pub hex_byte : ℕ → Bytes
hex_byte b = hex_digit (b / 16) ∷ hex_digit (b % 16) ∷ []

unfoldable pub from_hex : ℕ → ℕ
from_hex b =
    if leb b'0' b && leb b b'9'
    then b - b'0'
    else if leb b'a' b && leb b b'f'
    then b - b'a' + 10
    else if leb b'A' b && leb b b'F'
    then b - b'A' + 10
    else 0

-- `fromHex(hi)<<4 | fromHex(lo)`: the digits are below 16, so that the bits do not meet.
abbrev pub from_hex_pair : ℕ → ℕ → ℕ
from_hex_pair hi lo = from_hex hi * 16 + from_hex lo

unfoldable pub hex_encode : Bytes → Bytes
hex_encode [] = []
hex_encode (c ∷ b) = hex_byte c ++ hex_encode b

-- `none` for an odd length
unfoldable pub hex_decode : Bytes → Option Bytes
hex_decode [] = some []
hex_decode (c ∷ []) = none
hex_decode (hi ∷ (lo ∷ s)) = elim (hex_decode s) [
  | none ↦ none
  | some b ↦ some (from_hex_pair hi lo ∷ b)
]
