-- ===== src/Mcpserver/Debug/Calls/Effects.antt =====
-- What each call does to the sessions.
use qnx8_qconn_mcp.Prelude.{
  ◌≡◌, ◌≢◌, refl, ◌∙◌, Bool, List, Option, none, some, Bytes, to_hex, lookup, remove, ℤ, pos,
  Outcome, ok, err, state, Bool-cases, Option-cases, Outcome-cases, inl, inr,
}
use qnx8_qconn_mcp.Qnxdbg.Client as Dbg
use qnx8_qconn_mcp.Qnxdbg.Commands
use qnx8_qconn_mcp.Qnxdbg.Run
use qnx8_qconn_mcp.Qnxdbg.Info.{
  handle_sig, cpu_info, thread_names, proc_info, map_info, parse_map_info,
}
use qnx8_qconn_mcp.Qnxdbg.Launch
use qnx8_qconn_mcp.Qnxdbg.Memory
use qnx8_qconn_mcp.Mcpserver.Blocks.{decode_string, decode_aarch64, printable_strings}
use qnx8_qconn_mcp.Mcpserver.Sessions.{
  Session, Server, Error, client_error, invalid_hex, signal_table, on_session, on_client,
  add_session, keep, put_back, close, is_no_signal, dispose,
}
use qnx8_qconn_mcp.Mcpserver.Sessions.Invariant.{
  IsSession, table_or_default-IsTable, dispose-IsTable,
}
use qnx8_qconn_mcp.Mcpserver.Sessions.Uses.{
  get_session_missing, get_session_there, on_session_missing, on_session_there,
}
use qnx8_qconn_mcp.Mcpserver.Debug.{
  map_ok, without_part, done, debug_attach, debug_launch, attempt, debug_read_registers,
  debug_read_memory, debug_write_memory, debug_continue, debug_step, debug_break_set,
  debug_break_clear, debug_write_registers, debug_select_thread, debug_mapinfo, send_table,
  debug_handle_signal, debug_target_info, list_threads, debug_threads, debug_detach,
}
use qnx8_qconn_mcp.Mcpserver.Debug.Calls.{
  Call, attach, launch, read_registers, read_memory, write_memory, resume, step, break_set,
  break_clear, write_registers, select_thread, mapinfo, handle_signal, target_info, threads, detach,
  named, run,
}

module _ {P : Type 0} where
  -- A session changed in place, where it is known.
  abbrev pub touch : Bytes → (Session P → Session P) → Server P → Server P
  touch id g s = elim (lookup id s.sessions) [ none ↦ s | some sess ↦ keep id (g sess) s ]

  abbrev pub Keeps : (Session P → Session P) → Type 0
  Keeps g = (sess : Session P) → IsSession sess → IsSession (g sess)

-- What a call that names `id`, or no session, makes of `s`.
pub data Effect {P : Type 0} (s : Server P) (id : Option Bytes) (s' : Server P) : Type 0 where
  unchanged : s' ≡ s → Effect s id s'
  touched :
      (i : Bytes) (g : Session P → Session P)
      → id ≡ some i
      → Keeps g
      → s' ≡ touch i g s
      → Effect s id s'
  added : (c : Dbg.Client P) (pid : ℤ) → id ≡ none → s' ≡ (add_session c pid s).1 → Effect s id s'
  closed : (c : Dbg.Client P) → id ≡ none → s' ≡ close c s → Effect s id s'
  removed :
      (i : Bytes) (c : Dbg.Client P)
      → id ≡ some i
      → lookup i s.sessions ≢ none
      → s' ≡ close c (record s { sessions = remove i s.sessions })
      → Effect s id s'

module _ {P : Type 0} where
  on_client-IsSession :
      {E A : Type 0} (wrap : E → Error) (call : Dbg.Client P → Outcome E (Dbg.Client P) A)
      (sess : Session P)
      → IsSession sess
      → IsSession (state (on_client wrap call sess))
  on_client-IsSession wrap call sess h = elim (Outcome-cases (call sess.client)) [
    | inl (a, c, e) ↦ rw (e, state) h
    | inr (x, c, e) ↦ rw (e, state) h
  ]

  map_ok-IsSession :
      {A B : Type 0} (f : A → B) (o : Outcome Error (Session P) A)
      → IsSession (state o)
      → IsSession (state (map_ok f o))
  map_ok-IsSession f (ok a s) h = h
  map_ok-IsSession f (err e s) h = h

  send_table-IsSession :
      (sig : ℤ) (stop_ : Bool) (sess : Session P)
      → IsSession sess
      → IsSession (state (send_table sig stop_ sess))
  send_table-IsSession sig stop_ sess h =
      let tbl = dispose sig stop_ (signal_table sess) in
      on_client-IsSession client_error (handle_sig tbl) (record sess { sig_table = some tbl })
        (dispose-IsTable sig stop_ (signal_table sess) (table_or_default-IsTable sess.sig_table h))

  attempt-IsSession :
      {A : Type 0} (call : Dbg.Client P → Outcome Dbg.Error (Dbg.Client P) A) (sess : Session P)
      → IsSession sess
      → IsSession (attempt call sess).1
  attempt-IsSession call sess h = elim (Outcome-cases (call sess.client)) [
    | inl (a, c, e) ↦ rw (e, attempt) h
    | inr (x, c, e) ↦ rw (e, attempt) h
  ]

  list_threads-IsSession :
      (sess : Session P) → IsSession sess → IsSession (state (list_threads sess))
  list_threads-IsSession sess h =
      attempt-IsSession thread_names _ (attempt-IsSession (proc_info sess.pid (pos 1)) sess h)

  put_back-state :
      {A : Type 0} (id : Bytes) (s : Server P) (o : Outcome Error (Session P) A)
      → state (put_back id s o) ≡ keep id (state o) s
  put_back-state id s (ok a sess) = refl
  put_back-state id s (err e sess) = refl

  on_session-touch :
      {A : Type 0} (id : Bytes) (use_ : Session P → Outcome Error (Session P) A) (s : Server P)
      → state (on_session id use_ s) ≡ touch id (λ sess. state (use_ sess)) s
  on_session-touch id use_ s = elim (Option-cases (lookup id s.sessions)) [
    | inl e ↦ rw (on_session_missing id use_ s e) (rw (e, touch))
    | inr (sess, e) ↦
        rw (on_session_there id use_ s e) (put_back-state id s (use_ sess) ∙ rw (e, touch))
  ]

  used :
      {A : Type 0} (id : Bytes) (use_ : Session P → Outcome Error (Session P) A) (s : Server P)
      → Keeps (λ sess. state (use_ sess))
      → Effect s (some id) (state (on_session id use_ s))
  used id use_ s keeps =
      touched id (λ sess. state (use_ sess)) refl keeps (on_session-touch id use_ s)

  debug_attach-Effect :
      (dialed : Option (Dbg.Client P)) (pid : ℤ) (s : Server P)
      → Effect s none (state (debug_attach dialed pid s))
  unfolding debug_attach
  debug_attach-Effect none pid s = unchanged refl
  debug_attach-Effect (some cl) pid s = elim (Outcome-cases (Commands.attach pid cl)) [
    | inl (u, cl', e) ↦ rw (e, state) (added _ pid refl refl)
    | inr (x, cl', e) ↦ rw (e, state) (closed cl' refl refl)
  ]

  debug_launch-Effect :
      (dialed : Option (Dbg.Client P)) (path : Bytes) (args : List Bytes) (s : Server P)
      → Effect s none (state (debug_launch dialed path args s))
  unfolding debug_launch
  debug_launch-Effect none path args s = unchanged refl
  debug_launch-Effect (some cl) path args s =
      elim (Outcome-cases (Launch.launch path args none cl)) [
        | inl (res, cl', e) ↦ rw (e, state) (added _ (pos res.pid) refl refl)
        | inr (x, cl', e) ↦ rw (e, state) (closed cl' refl refl)
      ]

  debug_detach-Effect : (id : Bytes) (s : Server P) → Effect s (some id) (state (debug_detach id s))
  unfolding debug_detach
  debug_detach-Effect id s = elim (Option-cases (lookup id s.sessions)) [
    | inl e ↦ rw (get_session_missing id s e, state) (unchanged refl)
    | inr (sess, e) ↦ rw (get_session_there id s e, state) (removed id _ refl (λ n. cc) refl)
  ]

  -- The tools that decode bytes first.
  decoded :
      {A : Type 0} (id o : Option Bytes) (e : Error) (s : Server P)
      (call : Bytes → Server P → Outcome Error (Server P) A)
      → ((b : Bytes) → Effect s id (state (call b s)))
      → Effect s id (
          state
            (elim o as (λ x. Outcome Error (Server P) A) [ none ↦ err e s | some b ↦ call b s ]))
  decoded id none e s call h = unchanged refl
  decoded id (some b) e s call h = h b

  plain :
      {E A : Type 0} (id : Bytes) (wrap : E → Error)
      (call : Session P → Dbg.Client P → Outcome E (Dbg.Client P) A) (s : Server P)
      → Effect s (some id) (state (on_session id (λ sess. on_client wrap (call sess) sess) s))
  plain id wrap call s =
      used id (λ sess. on_client wrap (call sess) sess) s
        (λ sess h. on_client-IsSession wrap (call sess) sess h)

  shown :
      {E A B : Type 0} (id : Bytes) (f : A → B) (wrap : E → Error)
      (call : Session P → Dbg.Client P → Outcome E (Dbg.Client P) A) (s : Server P)
      → Effect s
          (some id)
          (state (on_session id (λ sess. map_ok f (on_client wrap (call sess) sess)) s))
  shown id f wrap call s =
      used id (λ sess. map_ok f (on_client wrap (call sess) sess)) s
        (λ sess h.
          map_ok-IsSession f (on_client wrap (call sess) sess)
            (on_client-IsSession wrap (call sess) sess h))

  debug_handle_signal-Effect :
      (id : Bytes) (sig : ℤ) (stop_ : Bool) (s : Server P)
      → Effect s (some id) (state (debug_handle_signal id sig stop_ s))
  unfolding debug_handle_signal
  debug_handle_signal-Effect id sig stop_ s = elim (Bool-cases (is_no_signal sig)) [
    | inl e ↦ rw (e, state) (unchanged refl)
    | inr e ↦ rw e (used id (send_table sig stop_) s (send_table-IsSession sig stop_))
  ]

  pub run-Effect : (call : Call P) (s : Server P) → Effect s (named call) (run call s)
  unfolding run debug_read_registers debug_read_memory debug_write_memory debug_continue debug_step
      debug_break_set debug_break_clear debug_write_registers debug_select_thread debug_mapinfo
      debug_target_info debug_threads
  run-Effect (attach dialed pid) s = debug_attach-Effect dialed pid s
  run-Effect (launch dialed path args) s = debug_launch-Effect dialed path args s
  run-Effect (detach id) s = debug_detach-Effect id s
  run-Effect (handle_signal id sig stop_) s = debug_handle_signal-Effect id sig stop_ s
  run-Effect (threads id) s = used id list_threads s list_threads-IsSession
  run-Effect (read_registers id) s =
      shown id (λ b. record { hex = to_hex b; registers = decode_aarch64 b }) client_error
        (λ sess. Commands.read_registers (pos 0) (pos 0x110)) s
  run-Effect (read_memory id addr n) s =
      shown id to_hex without_part (λ sess. Memory.read_memory addr n) s
  run-Effect (write_memory id addr hex) s =
      decoded (some id) (decode_string hex) invalid_hex s
        (λ b.
          on_session id
            (λ sess. map_ok done (on_client without_part (Memory.write_memory addr b) sess)))
        (λ b. shown id done without_part (λ sess. Memory.write_memory addr b) s)
  run-Effect (resume id) s = plain id client_error (λ sess. Run.continue) s
  run-Effect (step id) s = plain id client_error (λ sess. Run.step (pos 1)) s
  run-Effect (break_set id addr) s =
      plain id client_error (λ sess. Run.set_breakpoint addr (pos 0)) s
  run-Effect (break_clear id addr) s = plain id client_error (λ sess. Run.clear_breakpoint addr) s
  run-Effect (write_registers id offset hex) s =
      decoded (some id) (decode_string hex) invalid_hex s
        (λ b. on_session id (on_client client_error (Commands.write_registers offset b)))
        (λ b. plain id client_error (λ sess. Commands.write_registers offset b) s)
  run-Effect (select_thread id tid) s =
      plain id client_error (λ sess. Commands.select sess.pid tid) s
  run-Effect (mapinfo id) s =
      shown id (λ raw. record { segments = parse_map_info raw; hex = to_hex raw }) client_error
        (λ sess. map_info sess.pid) s
  run-Effect (target_info id) s =
      shown id (λ b. record { hex = to_hex b; strings = printable_strings b }) client_error
        (λ sess. cpu_info) s
