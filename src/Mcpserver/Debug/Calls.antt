-- ===== src/Mcpserver/Debug/Calls.antt =====
-- The debug tools one after the other, as a client of the server calls them.
pub mod Effects
pub mod Balance
pub mod Safety
pub mod Unknown
use qnx8_qconn_mcp.Prelude.{
  ℕ, Bool, List, [], ◌∷◌, Option, none, some, Bytes, ℤ, state, Outcome, ok, err,
}
use qnx8_qconn_mcp.Qnxdbg.Client as Dbg
use qnx8_qconn_mcp.Mcpserver.Sessions.{Server, Error}
use qnx8_qconn_mcp.Mcpserver.Debug.{
  debug_attach, debug_launch, debug_read_registers, debug_read_memory, debug_write_memory,
  debug_continue, debug_step, debug_break_set, debug_break_clear, debug_write_registers,
  debug_select_thread, debug_mapinfo, debug_handle_signal, debug_target_info, debug_threads,
  debug_detach,
}

-- A call of a tool, with its arguments.
pub data Call (P : Type 0) : Type 0 where
  attach : Option (Dbg.Client P) → ℤ → Call P
  launch : Option (Dbg.Client P) → Bytes → List Bytes → Call P
  read_registers : Bytes → Call P
  read_memory : Bytes → ℕ → ℕ → Call P
  write_memory : Bytes → ℕ → Bytes → Call P
  resume : Bytes → Call P
  step : Bytes → Call P
  break_set : Bytes → ℕ → Call P
  break_clear : Bytes → ℕ → Call P
  write_registers : Bytes → ℤ → Bytes → Call P
  select_thread : Bytes → ℤ → Call P
  mapinfo : Bytes → Call P
  handle_signal : Bytes → ℤ → Bool → Call P
  target_info : Bytes → Call P
  threads : Bytes → Call P
  detach : Bytes → Call P

-- The server that a call leaves.
unfoldable pub run : {P : Type 0} → Call P → Server P → Server P
run (attach dialed pid) s = state (debug_attach dialed pid s)
run (launch dialed path args) s = state (debug_launch dialed path args s)
run (read_registers id) s = state (debug_read_registers id s)
run (read_memory id addr n) s = state (debug_read_memory id addr n s)
run (write_memory id addr hex) s = state (debug_write_memory id addr hex s)
run (resume id) s = state (debug_continue id s)
run (step id) s = state (debug_step id s)
run (break_set id addr) s = state (debug_break_set id addr s)
run (break_clear id addr) s = state (debug_break_clear id addr s)
run (write_registers id offset hex) s = state (debug_write_registers id offset hex s)
run (select_thread id tid) s = state (debug_select_thread id tid s)
run (mapinfo id) s = state (debug_mapinfo id s)
run (handle_signal id sig stop_) s = state (debug_handle_signal id sig stop_ s)
run (target_info id) s = state (debug_target_info id s)
run (threads id) s = state (debug_threads id s)
run (detach id) s = state (debug_detach id s)

unfoldable pub run_all : {P : Type 0} → List (Call P) → Server P → Server P
run_all [] s = s
run_all (c ∷ cs) s = run_all cs (run c s)

-- A server without sessions, as it starts.
abbrev pub started : {P : Type 0} → Server P
started = record { sessions = []; sequence = 0; closed = [] }

-- The session that a call names.
abbrev pub named : {P : Type 0} → Call P → Option Bytes
named (attach dialed pid) = none
named (launch dialed path args) = none
named (read_registers id) = some id
named (read_memory id addr n) = some id
named (write_memory id addr hex) = some id
named (resume id) = some id
named (step id) = some id
named (break_set id addr) = some id
named (break_clear id addr) = some id
named (write_registers id offset hex) = some id
named (select_thread id tid) = some id
named (mapinfo id) = some id
named (handle_signal id sig stop_) = some id
named (target_info id) = some id
named (threads id) = some id
named (detach id) = some id

-- The error of a result.
abbrev pub error_of : {P A : Type 0} → Outcome Error (Server P) A → Option Error
error_of (ok a s) = none
error_of (err e s) = some e

-- The error that a call returns.
unfoldable pub failure : {P : Type 0} → Call P → Server P → Option Error
failure (attach dialed pid) s = error_of (debug_attach dialed pid s)
failure (launch dialed path args) s = error_of (debug_launch dialed path args s)
failure (read_registers id) s = error_of (debug_read_registers id s)
failure (read_memory id addr n) s = error_of (debug_read_memory id addr n s)
failure (write_memory id addr hex) s = error_of (debug_write_memory id addr hex s)
failure (resume id) s = error_of (debug_continue id s)
failure (step id) s = error_of (debug_step id s)
failure (break_set id addr) s = error_of (debug_break_set id addr s)
failure (break_clear id addr) s = error_of (debug_break_clear id addr s)
failure (write_registers id offset hex) s = error_of (debug_write_registers id offset hex s)
failure (select_thread id tid) s = error_of (debug_select_thread id tid s)
failure (mapinfo id) s = error_of (debug_mapinfo id s)
failure (handle_signal id sig stop_) s = error_of (debug_handle_signal id sig stop_ s)
failure (target_info id) s = error_of (debug_target_info id s)
failure (threads id) s = error_of (debug_threads id s)
failure (detach id) s = error_of (debug_detach id s)
