-- ===== src/Mcpserver/Debug.antt =====
-- internal/mcpserver/tools_debug.go: the debug tools, each a call on the server. What qconn and the
-- dialling of pdebug come to is an argument: a client, or none where either fails.
pub mod Calls
pub mod Signals
use qnx8_qconn_mcp.Prelude.{
  ℕ, Bool, true, false, List, [], ◌∷◌, Option, none, some, Bytes, if◌then◌else◌, ℤ, pos, to_hex,
  remove, Outcome, ok, err, state,
}
use qnx8_qconn_mcp.Qnxdbg.Client as Dbg
use qnx8_qconn_mcp.Qnxdbg.Commands
use qnx8_qconn_mcp.Qnxdbg.Run.{Stop, set_breakpoint, clear_breakpoint}
use qnx8_qconn_mcp.Qnxdbg.Run
use qnx8_qconn_mcp.Qnxdbg.Info.{
  MapSegment, handle_sig, cpu_info, thread_names, proc_info, map_info, parse_map_info,
}
use qnx8_qconn_mcp.Qnxdbg.Memory
use qnx8_qconn_mcp.Qnxdbg.Launch.{LaunchResult}
use qnx8_qconn_mcp.Qnxdbg.Launch
use qnx8_qconn_mcp.Mcpserver.Blocks.{
  printable_strings, longest_string, decode_aarch64, decode_string,
}
use qnx8_qconn_mcp.Mcpserver.Sessions.{
  Session, Server, Error, unknown_session, invalid_hex, signal_out_of_range, not_dialed,
  client_error, S, signal_table, get_session, on_session, on_client, add_session, close,
  is_no_signal, dispose,
}

pub record AttachOut : Type 0 where
  pub session_id : Bytes
  pub pid : ℤ

pub record LaunchOut : Type 0 where
  pub session_id : Bytes
  pub pid : ℕ
  pub tid : ℕ

pub record RegsOut : Type 0 where
  pub hex : Bytes
  pub registers : List (Bytes × Bytes)

pub record RawInfoOut : Type 0 where
  pub hex : Bytes
  pub strings : List Bytes

pub record MapInfoOut : Type 0 where
  pub segments : List MapSegment
  pub hex : Bytes

pub record ThreadsOut : Type 0 where
  pub pid : ℤ
  pub name : Bytes
  pub thread_names_ : List Bytes
  pub proc_info_hex : Bytes
  pub thread_names_hex : Bytes

-- A result, shown.
abbrev pub map_ok : {E T A B : Type 0} → (A → B) → Outcome E T A → Outcome E T B
map_ok f (ok a s) = ok (f a) s
map_ok f (err e s) = err e s

-- An error that comes with a part of the result.
abbrev pub without_part : {B : Type 0} → B × Dbg.Error → Error
without_part (b, e) = client_error e

abbrev pub done : {A : Type 0} → A → Unit {0}
done a = tt

abbrev pub show_proc : Option Bytes → ThreadsOut → ThreadsOut
show_proc none out = out
show_proc (some pi) out = record out {
  proc_info_hex = to_hex pi;
  name = longest_string (printable_strings pi);
}

abbrev pub show_threads : Option Bytes → ThreadsOut → ThreadsOut
show_threads none out = out
show_threads (some tn) out = record out {
  thread_names_hex = to_hex tn;
  thread_names_ = printable_strings tn;
}

module _ {P : Type 0} where
  unfoldable pub debug_attach : Option (Dbg.Client P) → ℤ → S P AttachOut
  debug_attach none pid s = err not_dialed s
  debug_attach (some cl) pid s = elim (Commands.attach pid cl) [
    | err e cl' ↦ err (client_error e) (close cl' s)
    | ok u cl' ↦
        let selected = state (Commands.select pid (pos 1) cl') in
        let (id, s') = add_session selected pid s in ok (record { session_id = id; pid = pid }) s'
  ]

  unfoldable pub debug_launch : Option (Dbg.Client P) → Bytes → List Bytes → S P LaunchOut
  debug_launch none path args s = err not_dialed s
  debug_launch (some cl) path args s = elim (Launch.launch path args none cl) [
    | err e cl' ↦ err (client_error e) (close cl' s)
    | ok res cl' ↦
        let selected = state (Commands.select (pos res.pid) (pos res.tid) cl') in
        let (id, s') = add_session selected (pos res.pid) s in
        ok (record { session_id = id; pid = res.pid; tid = res.tid }) s'
  ]

  unfoldable pub debug_read_registers : Bytes → S P RegsOut
  debug_read_registers id = on_session id λ sess.
      map_ok (λ b. record { hex = to_hex b; registers = decode_aarch64 b })
        (on_client client_error (Commands.read_registers (pos 0) (pos 0x110)) sess)

  unfoldable pub debug_read_memory : Bytes → ℕ → ℕ → S P Bytes
  debug_read_memory id addr n =
      on_session id λ sess. map_ok to_hex (on_client without_part (Memory.read_memory addr n) sess)

  unfoldable pub debug_write_memory : Bytes → ℕ → Bytes → S P (Unit {0})
  debug_write_memory id addr hex_text s = elim (decode_string hex_text) [
    | none ↦ err invalid_hex s
    | some bytes ↦
        on_session id
          (λ sess. map_ok done (on_client without_part (Memory.write_memory addr bytes) sess)) s
  ]

  unfoldable pub debug_continue : Bytes → S P Stop
  debug_continue id = on_session id (on_client client_error Run.continue)

  unfoldable pub debug_step : Bytes → S P Stop
  debug_step id = on_session id (on_client client_error (Run.step (pos 1)))

  unfoldable pub debug_break_set : Bytes → ℕ → S P (Unit {0})
  debug_break_set id addr = on_session id (on_client client_error (set_breakpoint addr (pos 0)))

  unfoldable pub debug_break_clear : Bytes → ℕ → S P (Unit {0})
  debug_break_clear id addr = on_session id (on_client client_error (clear_breakpoint addr))

  unfoldable pub debug_write_registers : Bytes → ℤ → Bytes → S P (Unit {0})
  debug_write_registers id offset hex_text s = elim (decode_string hex_text) [
    | none ↦ err invalid_hex s
    | some bytes ↦ on_session id (on_client client_error (Commands.write_registers offset bytes)) s
  ]

  unfoldable pub debug_select_thread : Bytes → ℤ → S P (Unit {0})
  debug_select_thread id tid =
      on_session id λ sess. on_client client_error (Commands.select sess.pid tid) sess

  unfoldable pub debug_mapinfo : Bytes → S P MapInfoOut
  debug_mapinfo id = on_session id λ sess.
      map_ok (λ raw. record { segments = parse_map_info raw; hex = to_hex raw })
        (on_client client_error (map_info sess.pid) sess)

  -- The table is changed before it is sent, and stays changed where sending fails.
  abbrev pub send_table : ℤ → Bool → Session P → Outcome Error (Session P) (Unit {0})
  send_table sig stop_ sess =
      let tbl = dispose sig stop_ (signal_table sess) in
      on_client client_error (handle_sig tbl) (record sess { sig_table = some tbl })

  unfoldable pub debug_handle_signal : Bytes → ℤ → Bool → S P (Unit {0})
  debug_handle_signal id sig stop_ s =
      if is_no_signal sig
      then err (signal_out_of_range sig) s
      else on_session id (send_table sig stop_) s

  unfoldable pub debug_target_info : Bytes → S P RawInfoOut
  debug_target_info id = on_session id λ sess.
      map_ok (λ b. record { hex = to_hex b; strings = printable_strings b })
        (on_client client_error cpu_info sess)

  -- A call whose error is passed over.
  abbrev pub attempt :
      {A : Type 0}
      → (Dbg.Client P → Outcome Dbg.Error (Dbg.Client P) A)
      → Session P
      → Option A × Session P
  attempt call sess = elim (call sess.client) [
    | ok a c ↦ (some a, record sess { client = c })
    | err e c ↦ (none, record sess { client = c })
  ]

  abbrev pub list_threads : Session P → Outcome Error (Session P) ThreadsOut
  list_threads sess =
      let out : ThreadsOut = record {
        pid = sess.pid;
        name = [];
        thread_names_ = [];
        proc_info_hex = [];
        thread_names_hex = [];
      } in
      let (pi, sess1) = attempt (proc_info sess.pid (pos 1)) sess in
      let (tn, sess2) = attempt thread_names sess1 in ok (show_threads tn (show_proc pi out)) sess2

  unfoldable pub debug_threads : Bytes → S P ThreadsOut
  debug_threads id = on_session id list_threads

  -- Neither the detaching nor the closing has to succeed; the client is not used again.
  unfoldable pub debug_detach : Bytes → S P (Unit {0})
  debug_detach id s = elim (get_session id s) [
    | err e s' ↦ err e s'
    | ok sess s' ↦
        let c = state (Commands.detach sess.pid sess.client) in
        ok tt (close c (record s' { sessions = remove id s'.sessions }))
  ]
