-- ===== src/Qconn/Pattern.antt =====
-- Pieces of the regular expressions of internal/qconn/launcher.go and of the mock's shell.
use qnx8_qconn_mcp.Prelude.{
  ℕ, Bool, ◌&&◌, [], ◌∷◌, Option, none, some, Bytes, leb, if◌then◌else◌, length, drop, codes,
  has_prefix,
}
use qnx8_qconn_mcp.Qconn.Noise.{trim_left}
use qnx8_qconn_mcp.Qconn.Prompt.{is_regexp_blank}

abbrev pub is_digit : ℕ → Bool
is_digit c = leb b'0' c && leb c b'9'

-- `(\d+)`, as long as it goes.
unfoldable pub digits_run : Bytes → Bytes
digits_run [] = []
digits_run (c ∷ s) = let more = digits_run s in if is_digit c then c ∷ more else []

-- A value that is not empty.
abbrev pub nonempty : Bytes → Option Bytes
nonempty [] = none
nonempty (c ∷ s) = some (c ∷ s)

-- `\s+`, and what stands behind it.
unfoldable pub past_blanks : Bytes → Option Bytes
past_blanks [] = none
past_blanks (c ∷ s) = if is_regexp_blank c then some (trim_left is_regexp_blank s) else none

-- `word\s+`, and what stands behind it.
unfoldable pub past_word : Bytes → Bytes → Option Bytes
past_word word s = if has_prefix s word then past_blanks (drop (length word) s) else none

-- `^OK\s+(\d+)`: the digits.
unfoldable pub ok_pid : Bytes → Option Bytes
ok_pid s = elim (past_word (codes "OK") s) [ none ↦ none | some rest ↦ nonempty (digits_run rest) ]
