-- ===== src/Qnxdbg/Info.antt =====
-- internal/qnxdbg/commands.go: signals, target and process information, and the memory map.
pub mod Segments
use qnx8_qconn_mcp.Prelude.{
  ℕ, zero, suc, ◌-◌, ◌/◌, ◌%◌, ◌^◌, Bool, not, ◌&&◌, List, [], ◌∷◌, ◌++◌, Bytes, ◌==◌, ltb, leb,
  if◌then◌else◌, length, take, drop, replicate, pure, ◌>>=◌, ◌>>◌, ℤ, uint32, u32, u64, to_hex,
}
use qnx8_qconn_mcp.Qnxdbg.Client.{
  M, target_error, target_errno, transact, transact_sub, resp_body, le32,
}
use qnx8_qconn_mcp.Qnxdbg.Commands.{
  cmd_pidlist, cmd_handlesig, cmd_cpu_info, cmd_tid_names, expect, errno_string,
}

abbrev pub num_signals : ℕ
num_signals = 72

abbrev pub cmd_proc_map : ℕ
cmd_proc_map = 27

pub record ProcessList : Type 0 where
  pub pid : ℕ
  pub tid : ℕ
  pub raw : Bytes

pub record MapSegment : Type 0 where
  pub vaddr : ℕ
  pub size : ℕ

-- `body := make([]byte, NumSignals); copy(body, table)`
abbrev pub sig_body : Bytes → Bytes
sig_body table = take num_signals table ++ replicate (num_signals - length table) 0

unfoldable pub entry_of : Bytes → ProcessList
entry_of b =
    let whole = leb 8 (length b) in
    record {
      pid = if whole then u32 b else 0;
      tid = if whole then u32 (drop 4 b) else 0;
      raw = to_hex b;
    }

module _ {P : Type 0} where
  unfoldable pub handle_sig : Bytes → M P (Unit {0})
  handle_sig table = do
    p ← transact_sub cmd_handlesig 0 (sig_body table)
    expect (target_errno cmd_handlesig (errno_string (resp_body p))) p

  unfoldable pub cpu_info : M P Bytes
  cpu_info = do
    p ← transact cmd_cpu_info (le32 0)
    expect (target_error cmd_cpu_info) p
    pure (resp_body p)

  unfoldable pub thread_names : M P Bytes
  thread_names = do
    p ← transact cmd_tid_names (le32 0)
    expect (target_error cmd_tid_names) p
    pure (resp_body p)

  unfoldable pub proc_info : ℤ → ℤ → M P Bytes
  proc_info pid tid = do
    p ← transact_sub cmd_pidlist 2 (le32 (uint32 pid) ++ le32 (uint32 tid))
    expect (target_error cmd_pidlist) p
    pure (resp_body p)

  unfoldable pub pidlist : ℤ → ℤ → Bool → M P ProcessList
  pidlist pid tid next = do
    p ← transact_sub cmd_pidlist (if next then 1 else 0) (le32 (uint32 pid) ++ le32 (uint32 tid))
    expect (target_error cmd_pidlist) p
    pure (entry_of (resp_body p))

  unfoldable pub map_info : ℤ → M P Bytes
  map_info pid = do
    p ← transact cmd_proc_map (le32 (uint32 pid))
    expect (target_errno cmd_proc_map (errno_string (resp_body p))) p
    pure (resp_body p)

-- `v&0xfff` is `v % 2 ^ 12`.
unfoldable pub plausible : ℕ → ℕ → Bool
plausible v s = not (v == 0) && v % 2 ^ 12 == 0 && not (s == 0) && ltb s (2 ^ 40)

-- The loop of `ParseMapInfo`, by the number of entries left: `b` is what stands from `off` on.
unfoldable pub parse_entries : ℕ → Bytes → List MapSegment
parse_entries zero b = []
parse_entries (suc n) b =
    let v = u64 (drop 8 b) in
    let s = u64 (drop 16 b) in
    let segs = parse_entries n (drop 24 b) in
    if plausible v s then record { vaddr = v; size = s } ∷ segs else segs

-- `off+24 <= len(b)` holds at one offset for each whole entry.
unfoldable pub parse_map_info : Bytes → List MapSegment
parse_map_info b = parse_entries (length b / 24) b
