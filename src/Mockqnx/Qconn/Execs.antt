-- ===== src/Mockqnx/Qconn/Execs.antt =====
-- A command of the client that the mock's launcher runs: `Exec`.
use qnx8_qconn_mcp.Prelude.{
  ℕ, ◌≤◌, ◌≡◌, ◌≢◌, refl, ap, ◌∙◌, inl, inr, [], ◌∷◌, ◌++◌, some, Bytes, All, All-append, codes,
  same, has_prefix, cut_once, to_decimal, digits_onto, pos, with_sign, parse_dec, dec_from, atoi,
  int_value, ok, pure, ◌>>=◌, ◌>>◌, map_err, Outcome-cases, arith,
}
use qnx8_qconn_mcp.Qconn.Telnet.{IsPlain, strip_iac-IsPlain}
use qnx8_qconn_mcp.Qconn.Noise.{
  is_noise, trim_left, trim_right, trim_space, strip_leading_noise, strip_rounds,
}
use qnx8_qconn_mcp.Qconn.Prompt.{all_blank}
use qnx8_qconn_mcp.Qconn.Pattern.{past_blanks, past_word, digits_run, ok_pid}
use qnx8_qconn_mcp.Qconn.Launcher.{escape_arg, IsInLine, escape_arg-IsInLine}
use qnx8_qconn_mcp.Qconn.Client.{broker, launcher}
use qnx8_qconn_mcp.Qconn.Frame.{FrameConn, F, write_line, read_until_prompt, frame_handshake}
use qnx8_qconn_mcp.Qconn.File.Replies.{served, line_of, write_line_writes, deliver-served}
use qnx8_qconn_mcp.Qconn.Exec.{
  exec_result, parsed_output, with_head, start_line, read_until_idle, start, launch, exec_on,
  handshake_failed,
}
use qnx8_qconn_mcp.Mockqnx.Shell.{crlf, run_shell}
use qnx8_qconn_mcp.Mockqnx.Qconn.{
  Session, hangs_up, greeting, set_svc, dispatch, launcher_line, start_command, past_argument,
  past_nonblanks, shell_text, in_last_quotes, up_to_last_quote, shell_output,
}
use qnx8_qconn_mcp.Mockqnx.Qconn.Serve.{Daemon, accepted}
use qnx8_qconn_mcp.Mockqnx.Qconn.Exchange.{IsRequest, IsRequest-append, ended, react-hangs_up}
use qnx8_qconn_mcp.Mockqnx.Qconn.Link.{IsLinked, IsBehind, react-IsLinked}
use qnx8_qconn_mcp.Mockqnx.Qconn.Services.{noise_first, service_command}
use qnx8_qconn_mcp.Mockqnx.Qconn.Connects.{greeted_on, reads_banner, asks_service}

in_line : (s : Bytes) → All IsInLine s → All (λ c. c ≢ 10) s
in_line [] h = tt
in_line (c ∷ s) h = (h.0.0, in_line s h.1)

quote-IsRequest : IsRequest (b'"' ∷ [])
unfolding trim_right
quote-IsRequest = record { some_ = refl; whole = omega arith; kept = refl }

start_line-IsRequest : (command : Bytes) → IsRequest (start_line command)
start_line-IsRequest command =
    IsRequest-append (codes "start/flags run /bin/sh /bin/sh -c " ++ b'"' ∷ []) _ (omega arith) (
      IsRequest-append (escape_arg command) _ (in_line _ (escape_arg-IsInLine command))
        quote-IsRequest)

up_to_last_quote-end : (s : Bytes) → up_to_last_quote (s ++ b'"' ∷ []) ≡ some s
unfolding up_to_last_quote all_blank
up_to_last_quote-end [] = refl
up_to_last_quote-end (c ∷ s) = rw (up_to_last_quote-end s)

-- The mock takes the escaped command out of the launcher's line.
start_command-start_line :
    (command : Bytes) → start_command (start_line command) ≡ some (escape_arg command)
unfolding start_command past_argument past_nonblanks shell_text past_blanks past_word in_last_quotes
    trim_left has_prefix
start_command-start_line command = up_to_last_quote-end (escape_arg command)

-- What the mock sends before the output of a command.
abbrev ok_head : Bytes
ok_head = codes "OK 8300" ++ crlf

dispatch-start_line :
    (command : Bytes) (s : Session)
    → s.svc ≡ launcher
    → dispatch (start_line command) s ≡ hangs_up (ok_head ++ run_shell (escape_arg command)) s
unfolding dispatch launcher_line same has_prefix to_decimal digits_onto
dispatch-start_line command s e = rw e (rw (start_command-start_line command, shell_output))

ok_head-exec_result :
    (text : Bytes) → exec_result (ok_head ++ text) ≡ record { pid = pos 8300; output = text }
unfolding exec_result parsed_output with_head strip_leading_noise strip_rounds is_noise cut_once
    ok_pid past_word past_blanks digits_run has_prefix trim_left trim_right trim_space same atoi
    with_sign parse_dec dec_from int_value
ok_head-exec_result text = refl

-- A call and the next one, and what is made of their result.
then_made :
    {A B : Type 0} (m : F Daemon (Unit {0})) (k : F Daemon A) (g : A → F Daemon B) (a : A)
    (f f' : FrameConn Daemon)
    → (m >> k) f ≡ ok a f'
    → (m >> (k >>= g)) f ≡ g a f'
then_made m k g a f f' e = elim (Outcome-cases (m f)) [
  | inl (u, f1, q) ↦
      let later : k f1 ≡ ok a f' = rw (q, ◌>>=◌) at e in rw (q, ◌>>=◌) (rw (later, ◌>>=◌))
  | inr (x, f1, q) ↦ absurd (cc (rw (q, ◌>>=◌) at e))
]

-- What a command that was started returns, and the connection behind it.
abbrev started : Bytes → Session → FrameConn Daemon → FrameConn Daemon
started command s f = served (ended s) (line_of (start_line command) ∷ []) [] f

start_lem :
    (n : ℕ) (command : Bytes) (s : Session) (f : FrameConn Daemon)
    → IsLinked n s f
    → s.svc ≡ launcher
    → All IsPlain (run_shell (escape_arg command))
    → start command f
      ≡ ok
          (record { pid = pos 8300; output = run_shell (escape_arg command) })
          (started command s f)
unfolding start read_until_idle
start_lem n command s f l e plain =
    let cmd = start_line command in
    let text = run_shell (escape_arg command) in
    let out = ok_head ++ text in
    let answered = react-IsLinked n s (line_of cmd) out (ended s) f l (
      react-hangs_up cmd out s s (start_line-IsRequest command)
        (dispatch-start_line command s e)) in
    let f' = λ (t : Bytes). served (ended s) (line_of cmd ∷ []) t f in
    let sent_ =
      deliver-served (line_of cmd) out (ended s) f answered ∙ ap (λ t. f' (t ++ out)) l.quiet in
    let kept = strip_iac-IsPlain out (All-append IsPlain ok_head text (omega arith) plain) in
    let done = ap (λ t. ok (exec_result t) (started command s f)) kept in
    rw (write_line_writes cmd f l.no_faults, ◌>>=◌)
      (ap (read_until_idle >>= λ t. pure (exec_result t)) sent_
        ∙ done
        ∙ ap (λ r. ok r (started command s f)) (ok_head-exec_result text))

launcher-ne-broker : launcher ≢ broker
launcher-ne-broker e = cc

launch_lem :
    (n : ℕ) (command : Bytes) (f : FrameConn Daemon)
    → IsBehind n greeting accepted.session f
    → 128 ≤ n
    → All IsPlain (run_shell (escape_arg command))
    → (f' : FrameConn Daemon) × (launch command (greeted_on f)
        ≡ ok (record { pid = pos 8300; output = run_shell (escape_arg command) }) f')
unfolding launch set_svc
launch_lem n command f h rounds plain =
    let fr = asks_service n launcher f h tt launcher-ne-broker rounds in
    let s = set_svc launcher accepted.session in
    let began = start_lem n command s fr.left fr.linked refl plain in
    (
      started command s fr.left,
      then_made (write_line (service_command launcher)) read_until_prompt _ _ (greeted_on f) fr.left
            fr.returned
          ∙ rw noise_first began,
    )

-- Against the mock, Exec on a connection that was just accepted returns the process id that the
-- launcher announces, and exactly what the shell prints of the escaped command: the announcement is
-- taken off, and the daemon's complaint about the terminal does not reach the output; for an output
-- without telnet commands, and a connection whose loops may take 128 rounds.
pub exec_on-run_shell :
    (n : ℕ) (command : Bytes) (f : FrameConn Daemon)
    → IsBehind n greeting accepted.session f
    → 128 ≤ n
    → All IsPlain (run_shell (escape_arg command))
    → (f' : FrameConn Daemon) × (exec_on command f
        ≡ ok (record { pid = pos 8300; output = run_shell (escape_arg command) }) f')
unfolding exec_on frame_handshake
exec_on-run_shell n command f h rounds plain =
    let (f', launched) = launch_lem n command f h rounds plain in
    let greeted : map_err handshake_failed frame_handshake f ≡ ok tt (greeted_on f) =
      rw (reads_banner n f h rounds, frame_handshake, map_err) in
    (f', rw (greeted, ◌>>=◌) (rw (launched, map_err)))
