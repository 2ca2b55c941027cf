-- ===== src/Qnxdbg/Protocol.antt =====
-- internal/qnxdbg/protocol.go: framing, checksum and escaping.
pub mod Escape
use qnx8_qconn_mcp.Prelude.{
  ℕ, ◌+◌, ◌-◌, ◌%◌, bit_xor, ◌||◌, [], ◌∷◌, ◌++◌, Bytes, ◌==◌, if◌then◌else◌, true, false,
}

abbrev pub frame_char : ℕ
frame_char = 0x7e

abbrev pub esc_char : ℕ
esc_char = 0x7d

abbrev pub esc_xor : ℕ
esc_xor = 0x20

abbrev pub chan_debug : ℕ
chan_debug = 0x01

abbrev pub chan_text : ℕ
chan_text = 0x02

-- the sum of the loop, in a byte
unfoldable pub sum_from : ℕ → Bytes → ℕ
sum_from s [] = s
sum_from s (c ∷ b) = sum_from ((s + c) % 256) b

unfoldable pub checksum : Bytes → ℕ
unfolding sum_from
checksum b = 0xff - sum_from 0 b

-- what the loop of `escape` appends for one byte
unfoldable pub escape_byte : ℕ → Bytes
escape_byte c =
    if c == frame_char || c == esc_char then esc_char ∷ bit_xor c esc_xor ∷ [] else c ∷ []

unfoldable pub escape : Bytes → Bytes
unfolding escape_byte
escape [] = []
escape (c ∷ b) = escape_byte c ++ escape b

-- An escape byte that ends the input stands for itself.
unfoldable pub unescape : Bytes → Bytes
unescape [] = []
unescape (c ∷ []) = c ∷ []
unescape (c ∷ (d ∷ b)) = elim (c == esc_char) [
  | true ↦ bit_xor d esc_xor ∷ unescape b
  | false ↦ c ∷ unescape (d ∷ b)
]

unfoldable pub frame : Bytes → Bytes
unfolding checksum escape
frame payload = frame_char ∷ (escape payload ++ (escape (checksum payload ∷ []) ++ frame_char ∷ []))
