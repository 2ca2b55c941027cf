-- ===== src/Dumps.antt =====
-- internal/obs/log.go and internal/proxy/proxy.go: the level and the redaction of log records, and the
-- dumps of wire traffic. Keys and levels are ASCII text.
use qnx8_qconn_mcp.Prelude.{
  ℕ, suc, ◌≡◌, refl, ap, Bool, ◌&&◌, ◌||◌, [], ◌∷◌, ◌++◌, Bytes, ltb, leb, if◌then◌else◌, length,
  take, codes, same, to_hex,
}
use qnx8_qconn_mcp.Qconn.Cntl.{to_lower}

pub data Level : Type 0 where
  debug info warn error_ : Level

-- The switch of `Setup`.
unfoldable pub level_of : Bytes → Level
level_of text =
    let t = to_lower text in
    if same t (codes "debug")
    then debug
    else if same t (codes "warn") || same t (codes "warning")
    then warn
    else if same t (codes "error")
    then error_
    else info

unfoldable pub is_sensitive : Bytes → Bool
is_sensitive key =
    let k = to_lower key in
    same k (codes "token")
    || (same k (codes "authorization")
        || (same k (codes "auth") || (same k (codes "secret") || same k (codes "password"))))

-- `redact`: the text that is logged under a key.
unfoldable pub redact : Bytes → Bytes → Bytes
redact key value = if is_sensitive key then codes "[redacted]" else value

abbrev pub shown_char : ℕ → ℕ
shown_char c = if leb 0x20 c && ltb c 0x7f then c else b'.'

-- `printable`, and `asciiDump` of the proxy.
unfoldable pub printable : Bytes → Bytes
printable [] = []
printable (c ∷ b) = shown_char c ∷ printable b

-- The loop of the proxy's `hexDump`: two digits of each byte, with blanks between.
unfoldable pub spaced_hex : Bytes → Bytes
spaced_hex [] = []
spaced_hex (c ∷ []) = to_hex (c ∷ [])
spaced_hex (c ∷ (d ∷ b)) = to_hex (c ∷ []) ++ b' ' ∷ spaced_hex (d ∷ b)

unfoldable pub hex_dump : Bytes → Bytes
hex_dump b = if ltb 512 (length b) then spaced_hex (take 512 b) ++ codes " ..." else spaced_hex b

-- What `printable` shows has a character for each byte.
length-printable : (b : Bytes) → length (printable b) ≡ length b
unfolding printable
length-printable [] = refl
length-printable (c ∷ b) = ap suc (length-printable b)
