-- ===== src/Mcpserver/Debug/Calls/Unknown.antt =====
-- Calls that name a session which the server does not know.
use qnx8_qconn_mcp.Prelude.{
  ◌≡◌, refl, sym, ◌∙◌, Option, none, some, Bytes, if◌then◌else◌, lookup, Outcome, err, Bool-cases,
  inl, inr,
}
use qnx8_qconn_mcp.Mcpserver.Blocks.{decode_string}
use qnx8_qconn_mcp.Mcpserver.Sessions.{
  Session, Server, Error, unknown_session, invalid_hex, signal_out_of_range, on_session, on_client,
  client_error, is_no_signal,
}
use qnx8_qconn_mcp.Mcpserver.Sessions.Uses.{get_session_missing, on_session_missing}
use qnx8_qconn_mcp.Qnxdbg.Commands
use qnx8_qconn_mcp.Qnxdbg.Memory
use qnx8_qconn_mcp.Mcpserver.Debug.{
  map_ok, without_part, done, debug_read_registers, debug_read_memory, debug_write_memory,
  debug_continue, debug_step, debug_break_set, debug_break_clear, debug_write_registers,
  debug_select_thread, debug_mapinfo, debug_handle_signal, debug_target_info, debug_threads,
  debug_detach,
}
use qnx8_qconn_mcp.Mcpserver.Debug.Calls.{
  Call, attach, launch, read_registers, read_memory, write_memory, resume, step, break_set,
  break_clear, write_registers, select_thread, mapinfo, handle_signal, target_info, threads, detach,
  named, run, error_of, failure,
}
use qnx8_qconn_mcp.Mcpserver.Debug.Calls.Effects.{
  touch, Effect, unchanged, touched, added, closed, removed, run-Effect,
}

-- The error that an argument is refused by, before the session is looked up.
abbrev pub hex_error : Bytes → Option Error
hex_error hex = elim (decode_string hex) [ none ↦ some invalid_hex | some b ↦ none ]

abbrev pub refused : {P : Type 0} → Call P → Option Error
refused (write_memory id addr hex) = hex_error hex
refused (write_registers id offset hex) = hex_error hex
refused (handle_signal id sig stop_) =
    if is_no_signal sig then some (signal_out_of_range sig) else none
refused _ = none

abbrev pub or_unknown : Option Error → Bytes → Error
or_unknown none id = unknown_session id
or_unknown (some e) id = e

module _ {P : Type 0} where
  Effect_unknown :
      (s : Server P) (i : Bytes) {s' : Server P}
      → lookup i s.sessions ≡ none
      → Effect s (some i) s'
      → s' ≡ s
  Effect_unknown s i h (unchanged e) = e
  Effect_unknown s i h (touched i' g q k e) =
      let here : i ≡ i' = cc in
      let absent : lookup i' s.sessions ≡ none = rw (sym here) h in e ∙ rw (absent, touch)
  Effect_unknown s i h (added c pid q e) = cc
  Effect_unknown s i h (closed c q e) = cc
  Effect_unknown s i h (removed i' c q n e) = let here : i ≡ i' = cc in absurd (n (rw (sym here) h))

  missing_error :
      {A : Type 0} (i id : Bytes) (use_ : Session P → Outcome Error (Session P) A) (s : Server P)
      → some i ≡ some id
      → lookup id s.sessions ≡ none
      → error_of (on_session i use_ s) ≡ some (unknown_session id)
  missing_error i id use_ s q h =
      let here : id ≡ i = cc in
      let absent : lookup i s.sessions ≡ none = rw (sym here) h in
      rw (on_session_missing i use_ s absent) (rw (sym here) refl)

  decoded_error :
      {A : Type 0} (o : Option Bytes) (id : Bytes) (s : Server P)
      (call : Bytes → Server P → Outcome Error (Server P) A)
      → ((b : Bytes) → error_of (call b s) ≡ some (unknown_session id))
      → error_of (elim o as (λ x. Outcome Error (Server P) A) [
        | none ↦ err invalid_hex s
        | some b ↦ call b s
      ])
        ≡ some (
            or_unknown
              (elim o as (λ x. Option Error) [ none ↦ some invalid_hex | some b ↦ none ])
              id)
  decoded_error none id s call h = refl
  decoded_error (some b) id s call h = h b

  failure_unknown :
      (call : Call P) (id : Bytes) (s : Server P)
      → named call ≡ some id
      → lookup id s.sessions ≡ none
      → failure call s ≡ some (or_unknown (refused call) id)
  unfolding failure debug_read_registers debug_read_memory debug_write_memory debug_continue
      debug_step debug_break_set debug_break_clear debug_write_registers debug_select_thread
      debug_mapinfo debug_handle_signal debug_target_info debug_threads debug_detach
  failure_unknown (attach dialed pid) id s q h = cc
  failure_unknown (launch dialed path args) id s q h = cc
  failure_unknown (write_memory i addr hex) id s q h =
      decoded_error (decode_string hex) id s
        (λ b.
          on_session i
            (λ sess. map_ok done (on_client without_part (Memory.write_memory addr b) sess)))
        (λ b. missing_error i id _ s q h)
  failure_unknown (write_registers i offset hex) id s q h =
      decoded_error (decode_string hex) id s
        (λ b. on_session i (on_client client_error (Commands.write_registers offset b)))
        (λ b. missing_error i id _ s q h)
  failure_unknown (handle_signal i sig stop_) id s q h = elim (Bool-cases (is_no_signal sig)) [
    | inl e ↦ rw e
    | inr e ↦ rw e (missing_error i id _ s q h)
  ]
  failure_unknown (detach i) id s q h =
      let here : id ≡ i = cc in
      let absent : lookup i s.sessions ≡ none = rw (sym here) h in
      rw (get_session_missing i s absent, error_of) (rw (sym here) refl)
  failure_unknown (read_registers i) id s q h = missing_error i id _ s q h
  failure_unknown (read_memory i addr n) id s q h = missing_error i id _ s q h
  failure_unknown (resume i) id s q h = missing_error i id _ s q h
  failure_unknown (step i) id s q h = missing_error i id _ s q h
  failure_unknown (break_set i addr) id s q h = missing_error i id _ s q h
  failure_unknown (break_clear i addr) id s q h = missing_error i id _ s q h
  failure_unknown (select_thread i tid) id s q h = missing_error i id _ s q h
  failure_unknown (mapinfo i) id s q h = missing_error i id _ s q h
  failure_unknown (target_info i) id s q h = missing_error i id _ s q h
  failure_unknown (threads i) id s q h = missing_error i id _ s q h

  -- A call that names an unknown session changes nothing on the server, and returns the error that
  -- names the session, unless its hexadecimal text or its signal number is refused before.
  pub run_unknown :
      (call : Call P) (id : Bytes) (s : Server P)
      → named call ≡ some id
      → lookup id s.sessions ≡ none
      → (run call s ≡ s) × (failure call s ≡ some (or_unknown (refused call) id))
  run_unknown call id s q h =
      (Effect_unknown s id h (rw (sym q) (run-Effect call s)), failure_unknown call id s q h)
