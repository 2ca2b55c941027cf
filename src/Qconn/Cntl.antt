-- ===== src/Qconn/Cntl.antt =====
-- internal/qconn/cntl.go: signals, and the memory access of internal/qconn/proc.go. Texts are ASCII,
-- where `strings.EqualFold` compares without case.
use qnx8_qconn_mcp.Prelude.{
  ℕ, ◌+◌, Bool, ◌&&◌, [], ◌∷◌, ◌++◌, Bytes, leb, if◌then◌else◌, codes, same, ℤ, pos, signed,
  to_decimal, pure, fail, ◌>>=◌, ◌>>◌,
}
use qnx8_qconn_mcp.Qconn.Noise.{first_line, trim_space}
use qnx8_qconn_mcp.Qconn.Frame.{proto_err, kill_op}
use qnx8_qconn_mcp.Qconn.Client.{Client, C, raw, ensure, cntl}
use qnx8_qconn_mcp.Qconn.Transfer.{ReadResult, WriteResult, read_file_range, write_file_at}

abbrev pub sigkill : ℤ
sigkill = pos 9

-- A letter in lower case.
unfoldable pub to_lower : Bytes → Bytes
to_lower [] = []
to_lower (c ∷ s) = (if leb b'A' c && leb c b'Z' then c + 32 else c) ∷ to_lower s

abbrev pub equal_fold : Bytes → Bytes → Bool
equal_fold a b = same (to_lower a) (to_lower b)

-- `%d`
abbrev pub decimal : ℤ → Bytes
decimal z = signed to_decimal z

-- `/proc/<pid>/as`
abbrev pub as_path : ℤ → Bytes
as_path pid = codes "/proc/" ++ (decimal pid ++ codes "/as")

module _ {P : Type 0} where
  unfoldable pub signal : ℤ → ℤ → C P (Unit {0})
  signal pid sig = do
    ensure cntl
    resp ← raw (codes "kill " ++ (decimal pid ++ b' ' ∷ decimal sig))
    if equal_fold (trim_space (first_line resp)) (codes "ok")
        then pure tt
        else fail (proto_err kill_op resp)

  unfoldable pub kill : ℤ → C P (Unit {0})
  kill pid = signal pid sigkill

  -- The address is an `uint64`, whose bit pattern `int64(vaddr)` keeps.
  unfoldable pub read_memory : ℤ → ℕ → ℕ → Client P → ReadResult P
  read_memory pid vaddr n = read_file_range (as_path pid) vaddr n

  unfoldable pub write_memory : ℤ → ℕ → Bytes → Client P → WriteResult P
  write_memory pid vaddr bytes = write_file_at (as_path pid) vaddr bytes
