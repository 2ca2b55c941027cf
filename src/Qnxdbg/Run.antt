-- ===== src/Qnxdbg/Run.antt =====
-- internal/qnxdbg/commands.go: breakpoints, running, and stop notifications.
use qnx8_qconn_mcp.Prelude.{
  ℕ, zero, suc, Bool, true, false, [], ◌++◌, Bytes, leb, if◌then◌else◌, length, drop, replicate,
  pure, ◌>>=◌, ℤ, pos, negsuc, uint32, u32, to_hex,
}
use qnx8_qconn_mcp.Qnxdbg.Client.{
  M, target_error, transact, transact_sub, read_response, resp_code, resp_body, le32, le64,
}
use qnx8_qconn_mcp.Qnxdbg.Commands.{cmd_stop, cmd_run, cmd_brk, expect}

abbrev pub brk_type_exec : ℕ
brk_type_exec = 0x01

abbrev pub run_continue : ℕ
run_continue = 0

abbrev pub run_step : ℕ
run_step = 1

pub record Stop : Type 0 where
  pub code : ℕ
  pub pid : ℕ
  pub tid : ℕ
  pub raw : Bytes

-- `x <= 0`
abbrev pub not_positive : ℤ → Bool
not_positive (pos zero) = true
not_positive (pos (suc n)) = false
not_positive (negsuc n) = true

abbrev pub brk_body : ℕ → ℤ → Bytes
brk_body addr size = le32 (uint32 size) ++ le64 addr

abbrev pub run_msg : ℕ → ℕ → Bytes
run_msg flags tid = le32 flags ++ le32 tid ++ replicate 12 0

-- `readResponse` returns no payload below four bytes, so the first is the code.
unfoldable pub stop_of : Bytes → Stop
stop_of p =
    let body = resp_body p in
    let whole = leb 8 (length body) in
    record {
      code = resp_code p;
      pid = if whole then u32 body else 0;
      tid = if whole then u32 (drop 4 body) else 0;
      raw = to_hex p;
    }

module _ {P : Type 0} where
  unfoldable pub set_break : ℕ → ℕ → ℤ → M P (Unit {0})
  set_break typ addr size = do
    p ← transact_sub cmd_brk typ (brk_body addr size)
    expect (target_error cmd_brk) p

  unfoldable pub set_breakpoint : ℕ → ℤ → M P (Unit {0})
  set_breakpoint addr size = set_break brk_type_exec addr size

  unfoldable pub clear_breakpoint : ℕ → M P (Unit {0})
  clear_breakpoint addr = set_break brk_type_exec addr (negsuc 0)

  unfoldable pub set_watchpoint : ℕ → ℕ → ℤ → M P (Unit {0})
  set_watchpoint typ addr size = set_break typ addr (if not_positive size then pos 1 else size)

  unfoldable pub wait_stop : M P Stop
  wait_stop = do p ← read_response; pure (stop_of p)

  unfoldable pub continue : M P Stop
  continue = do p ← transact_sub cmd_run run_continue (run_msg 0 1); wait_stop

  unfoldable pub step : ℤ → M P Stop
  step tid = do
    let t = if not_positive tid then pos 1 else tid
    p ← transact_sub cmd_run run_step (run_msg 0 (uint32 t))
    wait_stop

  unfoldable pub stop : M P (Unit {0})
  stop = do p ← transact cmd_stop []; pure tt
