-- ===== src/Debug/Codec/RoundTrip.antt =====
-- What the codec of the remote protocol takes back.
use qnx8_qconn_mcp.Prelude.{
  ℕ, ◌+◌, ◌/◌, ◌%◌, ◌≡◌, ◌≢◌, refl, sym, ap, ◌∙◌, bit_xor, Bool, true, not, ◌||◌, ◌&&◌, [], ◌∷◌,
  ◌++◌, append-nil, append_assoc, some, Bytes, IsByte, AreBytes, ◌==◌, All, All-append, xor-xor,
  xor-IsByte, arith, passes_below, passes_below_at, hex_digit, ==_iff,
}
use qnx8_qconn_mcp.Debug.Codec.{
  sum_bytes, checksum, escape_byte, escape, decode_onto, decode, hex_byte, from_hex, from_hex_pair,
  hex_encode, hex_decode, is_special,
}

decode_onto-escape_byte :
    (out : Bytes) (c : ℕ) (r : Bytes)
    → IsByte c
    → decode_onto out (escape_byte c ++ r) ≡ decode_onto (out ++ c ∷ []) r
unfolding decode_onto escape_byte
decode_onto-escape_byte out c [] h = ground (arith, xor-xor c h)
decode_onto-escape_byte out c (d ∷ r) h = ground (arith, xor-xor c h)

decode_onto-escape : (out p : Bytes) → AreBytes p → decode_onto out (escape p) ≡ out ++ p
unfolding escape
decode_onto-escape out [] h = unfold decode_onto in sym (append-nil out)
decode_onto-escape out (c ∷ p) h =
    decode_onto-escape_byte out c (escape p) h.0
    ∙ decode_onto-escape (out ++ c ∷ []) p h.1
    ∙ append_assoc out (c ∷ []) p

-- On bytes, decode takes back what escape does; no escaped byte is taken for a repetition.
pub decode-escape : (p : Bytes) → AreBytes p → decode (escape p) ≡ p
unfolding decode
decode-escape p h = decode_onto-escape [] p h

-- A byte of a packet's body.
abbrev pub IsBody : ℕ → Type 0
IsBody c = (c ≢ b'#') × (c ≢ b'$') × IsByte c

-- Whether the escape of a byte holds no mark of a packet.
abbrev unmarked : ℕ → Bool
unmarked c = not (is_special c) || (not (bit_xor c 0x20 == b'#') && not (bit_xor c 0x20 == b'$'))

unmarked_table : passes_below unmarked 256 ≡ true
unfolding passes_below
unmarked_table = refl

escape_byte-IsBody : (c : ℕ) → IsByte c → All IsBody (escape_byte c)
unfolding escape_byte
escape_byte-IsBody c h =
    let fine = passes_below_at unmarked 256 h unmarked_table in ground (arith, xor-IsByte c h)

-- An escaped payload is bytes again, and holds neither mark of a packet.
pub escape-IsBody : (p : Bytes) → AreBytes p → All IsBody (escape p)
unfolding escape
escape-IsBody [] h = tt
escape-IsBody (c ∷ p) h =
    All-append IsBody (escape_byte c) (escape p) (escape_byte-IsBody c h.0) (escape-IsBody p h.1)

hex_table :
    passes_below (λ c. from_hex_pair (hex_digit (c / 16)) (hex_digit (c % 16)) == c) 256 ≡ true
unfolding passes_below from_hex hex_digit
hex_table = refl

pub from_hex_pair-hex_digit :
    (c : ℕ) → IsByte c → from_hex_pair (hex_digit (c / 16)) (hex_digit (c % 16)) ≡ c
from_hex_pair-hex_digit c h = (==_iff _ c).0 (passes_below_at _ 256 h hex_table)

-- Hexadecimal text of bytes decodes to the bytes.
pub hex_decode-hex_encode : (b : Bytes) → AreBytes b → hex_decode (hex_encode b) ≡ some b
unfolding hex_decode hex_encode hex_byte
hex_decode-hex_encode [] h = refl
hex_decode-hex_encode (c ∷ b) h =
    rw (hex_decode-hex_encode b h.1, hex_decode)
      (ap (λ x. some (x ∷ b)) (from_hex_pair-hex_digit c h.0))

sum_bytes-IsByte : (s : ℕ) (b : Bytes) → IsByte s → IsByte (sum_bytes s b)
unfolding sum_bytes
sum_bytes-IsByte s [] h = h
sum_bytes-IsByte s (c ∷ b) h = sum_bytes-IsByte ((s + c) % 256) b (omega arith)

pub checksum-IsByte : (b : Bytes) → IsByte (checksum b)
unfolding checksum
checksum-IsByte b = sum_bytes-IsByte 0 b (omega arith)
