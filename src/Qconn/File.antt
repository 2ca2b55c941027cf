-- ===== src/Qconn/File.antt =====
-- internal/qconn/file.go: the file service. An `int64` offset and an `int` flag or mode are the bit
-- patterns of their 64 bits; numbers that a response holds are signed.
pub mod Status
pub mod Replies
use Prim.Native.Nat.{bit_or}
use qnx8_qconn_mcp.Prelude.{
  ℕ, zero, suc, ◌+◌, ◌-◌, ◌%◌, ◌^◌, Bool, true, false, ◌||◌, ◌&&◌, List, [], ◌∷◌, ◌++◌, Option,
  none, some, Bytes, ◌==◌, ltb, leb, if◌then◌else◌, length, take, drop, codes, has_prefix, cut_once,
  ℤ, pos, negsuc, signed, to_hex_number, hex_int64, ParsedInt, integer, int_syntax, int_range,
  parse_int, int_value, Outcome, ok, err, pure, fail, ◌>>=◌, ◌>>◌, state,
}
use qnx8_qconn_mcp.Qconn.Noise.{first_line, trim_space}
use qnx8_qconn_mcp.Qconn.Prompt.{all_blank}
use qnx8_qconn_mcp.Qconn.Frame.{
  F, Error, refused, spent, open_op, close_op, read_op, write_op, delete_op, chmod_op, proto_err,
  write_line, write_raw, read_response_line, read_until_prompt, read_n,
}
use qnx8_qconn_mcp.Qconn.Client.{Client, C, on_frame, raw, ensure, file}

abbrev pub o_rdonly : ℕ
o_rdonly = 0

abbrev pub o_wronly : ℕ
o_wronly = 1

abbrev pub o_rdwr : ℕ
o_rdwr = 2

abbrev pub o_creat : ℕ
o_creat = 0x100

abbrev pub o_trunc : ℕ
o_trunc = 0x200

abbrev pub s_ifdir : ℕ
s_ifdir = 0x4000

-- 0666 and 0777
abbrev pub mode_rw_all : ℕ
mode_rw_all = 438

abbrev pub mode_dir : ℕ
mode_dir = 511

abbrev pub max_read_chunk : ℕ
max_read_chunk = 2048

abbrev pub max_write_chunk : ℕ
max_write_chunk = 16384

-- `if n > maxReadChunk { n = maxReadChunk }`
abbrev pub read_chunk : ℕ → ℕ
read_chunk n = if ltb max_read_chunk n then max_read_chunk else n

-- `end := total + maxWriteChunk; if end > len(data) { end = len(data) }`
abbrev pub write_end : ℕ → ℕ → ℕ
write_end total len = if ltb len (total + max_write_chunk) then len else total + max_write_chunk

pub record FileHandle : Type 0 where
  pub fd : ℤ
  pub mode : ℤ
  pub size : ℤ
  pub path : Bytes

-- `%x` of an `int64` that was read.
abbrev pub hex_of : ℤ → Bytes
hex_of z = signed to_hex_number z

-- `[0-9a-fA-F-]`
abbrev pub is_field_char : ℕ → Bool
is_field_char c =
    (leb b'0' c && leb c b'9')
    || (leb b'a' c && leb c b'f')
    || (leb b'A' c && leb c b'F')
    || c == b'-'

-- `([0-9a-fA-F-]+):`, by the field so far: the field, and what stands behind the colon.
unfoldable pub field_from : Bytes → Bytes → Option (Bytes × Bytes)
field_from field [] = none
field_from field (c ∷ s) = elim (is_field_char c) [
  | true ↦ field_from (field ++ c ∷ []) s
  | false ↦ elim field [ [] ↦ none | x ∷ xs ↦ if c == b':' then some (x ∷ xs, s) else none ]
]

-- What stands before the last quote.
unfoldable pub to_last_quote : Bytes → Option Bytes
to_last_quote [] = none
to_last_quote (c ∷ s) = elim (to_last_quote s) [
  | some t ↦ some (c ∷ t)
  | none ↦ if c == b'"' then some [] else none
]

-- `"(.+)"`
unfoldable pub quoted : Bytes → Option Bytes
quoted [] = none
quoted (c ∷ s) = elim (to_last_quote s) [
  | none ↦ none
  | some [] ↦ none
  | some (x ∷ t) ↦ if c == b'"' then some (x ∷ t) else none
]

abbrev pub int_of : Bytes → ℤ
int_of s = int_value (parse_int s)

unfoldable pub handle_at : Bytes → Bytes → Bytes → Bytes → Option FileHandle
handle_at fd mode size rest = elim (quoted rest) [
  | none ↦ none
  | some path ↦
      some (record { fd = int_of fd; mode = int_of mode; size = int_of size; path = path })
]

unfoldable pub sized_handle : Bytes → Bytes → Bytes → Option FileHandle
sized_handle fd mode rest = elim (field_from [] rest) [
  | none ↦ none
  | some (size, path) ↦ handle_at fd mode size path
]

unfoldable pub moded_handle : Bytes → Bytes → Option FileHandle
moded_handle fd rest = elim (field_from [] rest) [
  | none ↦ none
  | some (mode, more) ↦ sized_handle fd mode more
]

-- `openRe` on a line, with its numbers read.
unfoldable pub handle_of : Bytes → Option FileHandle
handle_of line =
    let fields : Option FileHandle = elim (field_from [] (drop 2 line)) [
      | none ↦ none
      | some (fd, rest) ↦ moded_handle fd rest
    ] in
    if has_prefix line (codes "o:") then fields else none

-- `okRe`
abbrev pub is_ok : Bytes → Bool
is_ok line = has_prefix line (codes "o") && all_blank (drop 1 line)

-- A path between quotes, as it stands.
abbrev pub in_quotes : Bytes → Bytes
in_quotes path = b'"' ∷ (path ++ b'"' ∷ [])

abbrev pub open_command : Bytes → ℕ → ℕ → Bytes
open_command path flags mode =
    codes "o:" ++ (in_quotes path ++ b':' ∷ (hex_int64 flags ++ b':' ∷ hex_int64 mode))

abbrev pub read_command : ℤ → ℕ → ℕ → Bytes
read_command fd off n = codes "r:" ++ (hex_of fd ++ b':' ∷ (hex_int64 off ++ b':' ∷ hex_int64 n))

abbrev pub write_command : ℤ → ℕ → ℕ → Bytes
write_command fd off n = codes "w:" ++ (hex_of fd ++ b':' ∷ (hex_int64 off ++ b':' ∷ hex_int64 n))

abbrev pub head_field : Bytes → Bytes
head_field s = elim (cut_once b':' s) [ none ↦ s | some (a, b) ↦ a ]

module _ {P : Type 0} where
  unfoldable pub opened : Bytes → C P FileHandle
  opened line = elim (handle_of line) [
    | none ↦ fail (refused open_op (trim_space line))
    | some h ↦ pure h
  ]

  unfoldable pub open_file : Bytes → ℕ → ℕ → C P FileHandle
  open_file path flags mode = do resp ← raw (open_command path flags mode); opened (first_line resp)

  -- A response that has to be a plain `o`.
  unfoldable pub expect_ok : Error → Bytes → C P (Unit {0})
  expect_ok e resp = if is_ok (first_line resp) then pure tt else fail e

  unfoldable pub close_file : ℤ → C P (Unit {0})
  close_file fd = do resp ← raw (codes "c:" ++ hex_of fd); expect_ok (proto_err close_op resp) resp

  -- `_, _ = c.fc.readUntilPrompt()`
  unfoldable pub resync : F P (Unit {0})
  resync f = ok tt (state (read_until_prompt f))

  -- The bytes that a read announces, and the prompt behind them. An announced number for which Go cannot
  -- allocate is taken as one for which the bytes do not come.
  unfoldable pub payload : Bytes → ParsedInt → F P Bytes
  payload line (integer (pos n)) = do
    got ← (if ltb 0 n then read_n n else pure [])
    read_until_prompt
    pure got
  payload line (integer (negsuc n)) = do read_until_prompt; pure []
  payload line int_syntax = fail (proto_err read_op line)
  payload line (int_range b) = fail (proto_err read_op line)

  unfoldable pub read_status : Bytes → F P Bytes
  read_status line =
      if has_prefix line (codes "e:")
      then resync >> fail (refused read_op (trim_space (drop 2 line)))
      else if has_prefix line (codes "o:")
      then payload line (parse_int (head_field (drop 2 line)))
      else resync >> fail (proto_err read_op line)

  unfoldable pub read_at : ℤ → ℕ → ℕ → F P Bytes
  read_at fd off n = do
    write_line (read_command fd off (read_chunk n))
    line ← read_response_line
    read_status line

  unfoldable pub write_status : Bytes → F P ℤ
  write_status line =
      if has_prefix line (codes "o:")
      then read_until_prompt >> pure (int_of (head_field (drop 2 line)))
      else fail (proto_err write_op line)

  unfoldable pub write_at : ℤ → ℕ → Bytes → F P ℤ
  write_at fd off bytes = do
    write_line (write_command fd off (length bytes))
    write_raw bytes
    line ← read_response_line
    write_status line

  -- `defer c.closeFile(fd)` behind a result.
  unfoldable pub deferring : {E A : Type 0} → ℤ → Outcome E (Client P) A → Outcome E (Client P) A
  deferring fd (ok a c) = ok a (state (close_file fd c))
  deferring fd (err e c) = err e (state (close_file fd c))
