-- ===== src/Mcpserver/Blocks.antt =====
-- internal/mcpserver/tools_debug.go: what the debug tools show of a reply's raw block.
pub mod Strings
use qnx8_qconn_mcp.Prelude.{
  ℕ, zero, suc, ◌+◌, ◌-◌, ◌*◌, Bool, true, false, ◌&&◌, List, [], ◌∷◌, ◌++◌, Option, none, some,
  Bytes, ltb, leb, if◌then◌else◌, length, drop, u64, codes, to_hex_number, to_decimal, to_hex,
  hex_value,
}

-- `c >= 0x20 && c < 0x7f`
abbrev pub is_printable : ℕ → Bool
is_printable c = leb 0x20 c && ltb c 0x7f

-- `flush`, in front of the later strings.
abbrev pub flush : Bytes → List Bytes → List Bytes
flush cur later = if leb 2 (length cur) then cur ∷ later else later

-- The loop of `printableStrings`, with the string at hand.
unfoldable pub strings_from : Bytes → Bytes → List Bytes
strings_from cur [] = flush cur []
strings_from cur (c ∷ b) = elim (is_printable c) [
  | true ↦ strings_from (cur ++ c ∷ []) b
  | false ↦ flush cur (strings_from [] b)
]

unfoldable pub printable_strings : Bytes → List Bytes
printable_strings b = strings_from [] b

-- The loop of `longestString`, with the best so far.
unfoldable pub longest_from : Bytes → List Bytes → Bytes
longest_from best [] = best
longest_from best (s ∷ ss) = longest_from (if ltb (length best) (length s) then s else best) ss

unfoldable pub longest_string : List Bytes → Bytes
longest_string ss = longest_from [] ss

-- `rd`, shown by `%#x`
unfoldable pub register_at : Bytes → ℕ → Option Bytes
register_at b off =
    if ltb (length b) (off + 8) then none else some (codes "0x" ++ to_hex_number (u64 (drop off b)))

-- A register in front of the later ones, where the block holds it.
abbrev pub add_register : Bytes → Bytes → ℕ → List (Bytes × Bytes) → List (Bytes × Bytes)
add_register b name off later = elim (register_at b off) [
  | none ↦ later
  | some v ↦ (name, v) ∷ later
]

-- The loop over `x0` to `x30`, by the registers left.
unfoldable pub general_from : ℕ → ℕ → Bytes → List (Bytes × Bytes) → List (Bytes × Bytes)
general_from zero i b later = later
general_from (suc n) i b later =
    add_register b (b'x' ∷ to_decimal i) (i * 8) (general_from n (i + 1) b later)

unfoldable pub decode_aarch64 : Bytes → List (Bytes × Bytes)
decode_aarch64 b = general_from 31 0 b (
    add_register b (codes "sp") (31 * 8)
      (add_register b (codes "pc") 0x100 (add_register b (codes "pstate") 0x108 [])))

-- `hex.DecodeString`, whose errors are an odd length and a byte that is no digit.
unfoldable pub decode_string : Bytes → Option Bytes
decode_string [] = some []
decode_string (h ∷ []) = none
decode_string (h ∷ (l ∷ s)) = elim (hex_value h) [
  | none ↦ none
  | some hi ↦ elim (hex_value l) [
    | none ↦ none
    | some lo ↦ elim (decode_string s) [ none ↦ none | some b ↦ some ((hi * 16 + lo) ∷ b) ]
  ]
]
