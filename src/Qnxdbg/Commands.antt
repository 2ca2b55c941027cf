-- ===== src/Qnxdbg/Commands.antt =====
-- internal/qnxdbg/commands.go: one function for each command, but for memory, launch and map.
use qnx8_qconn_mcp.Prelude.{
  ℕ, ◌++◌, Bytes, ◌==◌, ltb, if◌then◌else◌, length, pure, fail, ◌>>=◌, ◌>>◌, ℤ, uint16, uint32, u32,
}
use qnx8_qconn_mcp.Qnxdbg.Client.{
  M, Error, target_error, Errno, no_errno, enoent, enoexec, eacces, einval, errno, transact,
  resp_code, resp_body, le16, le32,
}

abbrev pub cmd_select : ℕ
cmd_select = 2

abbrev pub cmd_attach : ℕ
cmd_attach = 5

abbrev pub cmd_detach : ℕ
cmd_detach = 6

abbrev pub cmd_kill : ℕ
cmd_kill = 7

abbrev pub cmd_stop : ℕ
cmd_stop = 8

abbrev pub cmd_regrd : ℕ
cmd_regrd = 11

abbrev pub cmd_regwr : ℕ
cmd_regwr = 12

abbrev pub cmd_run : ℕ
cmd_run = 13

abbrev pub cmd_brk : ℕ
cmd_brk = 14

abbrev pub cmd_pidlist : ℕ
cmd_pidlist = 19

abbrev pub cmd_handlesig : ℕ
cmd_handlesig = 24

abbrev pub cmd_cpu_info : ℕ
cmd_cpu_info = 25

abbrev pub cmd_tid_names : ℕ
cmd_tid_names = 26

abbrev pub resp_err : ℕ
resp_err = 0x20

-- `if respCode(p) == respErr { return … }`
unfoldable pub expect : {P : Type 0} → Error → Bytes → M P (Unit {0})
expect e p = if resp_code p == resp_err then fail e else pure tt

unfoldable pub errno_string : Bytes → Errno
errno_string b =
    if ltb (length b) 4
    then no_errno
    else if u32 b == 2
    then enoent
    else if u32 b == 8
    then enoexec
    else if u32 b == 13
    then eacces
    else if u32 b == 22
    then einval
    else errno (u32 b)

module _ {P : Type 0} where
  unfoldable pub attach : ℤ → M P (Unit {0})
  attach pid = do p ← transact cmd_attach (le32 (uint32 pid)); expect (target_error cmd_attach) p

  unfoldable pub detach : ℤ → M P (Unit {0})
  detach pid = do p ← transact cmd_detach (le32 (uint32 pid)); expect (target_error cmd_detach) p

  unfoldable pub kill : ℤ → M P (Unit {0})
  kill pid = do p ← transact cmd_kill (le32 (uint32 pid)); expect (target_error cmd_kill) p

  unfoldable pub select : ℤ → ℤ → M P (Unit {0})
  select pid tid = do
    p ← transact cmd_select (le32 (uint32 pid) ++ le32 (uint32 tid))
    expect (target_error cmd_select) p

  unfoldable pub read_registers : ℤ → ℤ → M P Bytes
  read_registers offset size = do
    p ← transact cmd_regrd (le16 (uint16 offset) ++ le16 (uint16 size))
    expect (target_error cmd_regrd) p
    pure (resp_body p)

  unfoldable pub write_registers : ℤ → Bytes → M P (Unit {0})
  write_registers offset values = do
    p ← transact cmd_regwr (le16 (uint16 offset) ++ values)
    expect (target_error cmd_regwr) p
