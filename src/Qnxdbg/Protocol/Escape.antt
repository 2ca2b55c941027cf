-- ===== src/Qnxdbg/Protocol/Escape.antt =====
-- Escaping loses nothing, and hides the delimiter.
use qnx8_qconn_mcp.Prelude.{
  ℕ, ◌+◌, ◌%◌, ◌≡◌, ◌≢◌, refl, ap, ◌∙◌, [], ◌∷◌, ◌++◌, append_assoc, Bytes, IsByte, AreBytes, All,
  All-append, xor-xor, xor-IsByte, arith,
}
use qnx8_qconn_mcp.Qnxdbg.Protocol.{frame_char, sum_from, checksum, escape_byte, escape, unescape}

sum_from-IsByte : (s : ℕ) (b : Bytes) → IsByte s → IsByte (sum_from s b)
unfolding sum_from
sum_from-IsByte s [] h = h
sum_from-IsByte s (c ∷ b) h = sum_from-IsByte ((s + c) % 256) b (omega arith)

pub checksum-IsByte : (b : Bytes) → IsByte (checksum b)
unfolding checksum
checksum-IsByte b = omega arith

pub escape-append : (a b : Bytes) → escape (a ++ b) ≡ escape a ++ escape b
unfolding escape
escape-append [] b = refl
escape-append (c ∷ a) b = simp (escape-append a b, append_assoc)

-- What stands behind the escape of one byte is decoded by itself.
unescape-escape_byte :
    (c : ℕ) (r : Bytes) → IsByte c → unescape (escape_byte c ++ r) ≡ c ∷ unescape r
unfolding unescape escape_byte
unescape-escape_byte c [] h = ground (arith, xor-xor c h)
unescape-escape_byte c (d ∷ r) h = ground (arith, xor-xor c h)

-- On bytes, unescape takes back what escape does.
pub unescape-escape : (b : Bytes) → AreBytes b → unescape (escape b) ≡ b
unfolding escape
unescape-escape [] h = unfold unescape in refl
unescape-escape (c ∷ b) h =
    unescape-escape_byte c (escape b) h.0 ∙ ap (◌∷◌ c) (unescape-escape b h.1)

-- A byte on the wire between two delimiters.
abbrev pub IsContent : ℕ → Type 0
IsContent c = (c ≢ frame_char) × IsByte c

escape_byte-IsContent : (c : ℕ) → IsByte c → All IsContent (escape_byte c)
unfolding escape_byte
escape_byte-IsContent c h = ground (arith, xor-IsByte c h)

-- Escaped bytes are bytes again, and none of them is the delimiter.
pub escape-IsContent : (b : Bytes) → AreBytes b → All IsContent (escape b)
unfolding escape
escape-IsContent [] h = tt
escape-IsContent (c ∷ b) h =
    All-append IsContent (escape_byte c) (escape b) (escape_byte-IsContent c h.0)
      (escape-IsContent b h.1)
