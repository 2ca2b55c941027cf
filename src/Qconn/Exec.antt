-- ===== src/Qconn/Exec.antt =====
-- internal/qconn/launcher.go: commands that run through the shell, each on a connection of its own.
-- Dialling is what the environment gives; closing a connection and logging are left out.
use qnx8_qconn_mcp.Prelude.{
  ℕ, Bool, ◌||◌, List, [], ◌∷◌, ◌++◌, Option, none, some, Bytes, ◌==◌, if◌then◌else◌, codes,
  has_prefix, cut_once, ℤ, pos, integer, int_syntax, int_range, ParsedInt, atoi, int_value, Outcome,
  ok, err, pure, fail, ◌>>=◌, ◌>>◌, map_err,
}
use qnx8_qconn_mcp.Qconn.Telnet.{strip_iac}
use qnx8_qconn_mcp.Qconn.Noise.{
  is_cr, trim_left, trim_right, trim_space, first_line, strip_leading_noise,
}
use qnx8_qconn_mcp.Qconn.Sysinfo.{join}
use qnx8_qconn_mcp.Qconn.Launcher.{escape_arg}
use qnx8_qconn_mcp.Qconn.Pattern.{ok_pid}
use qnx8_qconn_mcp.Qconn.Frame.{
  FrameConn, F, Error, set_input, proto_err, service, write_line, read_until_prompt,
  frame_handshake,
}

pub record ExecResult : Type 0 where
  pub pid : ℤ
  pub output : Bytes

pub data ExecError : Type 0 where
  dial_failed : ExecError
  handshake_failed : Error → ExecError
  exec_failed : Error → ExecError

-- The connections that dialling will give, in order; none where it fails, as behind the last.
abbrev pub Dials : Type 0 → Type 0
Dials P = List (Option (FrameConn P))

abbrev pub D : Type 0 → Type 0 → Type 0
D P A = Dials P → Outcome ExecError (Dials P) A

-- `strconv.Atoi` of the digits that a pattern has found.
abbrev pub pid_of : Bytes → ℤ
pid_of digits = int_value (atoi digits)

-- The result of an output of more than one line, by its first line and the rest.
unfoldable pub with_head : Bytes → Bytes → Bytes → ExecResult
with_head out head rest = elim (ok_pid (trim_right is_cr head)) [
  | some digits ↦ record { pid = pid_of digits; output = rest }
  | none ↦ record { pid = pos 0; output = out }
]

-- The result of an output of one line at most.
unfoldable pub without_head : Bytes → ExecResult
without_head out = elim (ok_pid (trim_space out)) [
  | some digits ↦ record { pid = pid_of digits; output = [] }
  | none ↦ record { pid = pos 0; output = out }
]

unfoldable pub parsed_output : Bytes → ExecResult
parsed_output out = elim (cut_once 10 out) [
  | some (head, rest) ↦ with_head out head rest
  | none ↦ without_head out
]

-- `strings.TrimLeft(out, " \r\n")`
abbrev pub is_lead : ℕ → Bool
is_lead c = c == b' ' || c == 13 || c == 10

unfoldable pub exec_result : Bytes → ExecResult
exec_result out = parsed_output (strip_leading_noise (trim_left is_lead out))

abbrev pub start_line : Bytes → Bytes
start_line command =
    codes "start/flags run /bin/sh /bin/sh -c " ++ b'"' ∷ (escape_arg command ++ b'"' ∷ [])

module _ {P : Type 0} where
  -- `readUntilIdle`: all that the remote end sends before it falls silent or closes.
  unfoldable pub read_until_idle : F P Bytes
  read_until_idle f = ok (strip_iac f.conn.input) (set_input [] f)

  unfoldable pub start : Bytes → F P ExecResult
  start command = do write_line (start_line command); out ← read_until_idle; pure (exec_result out)

  unfoldable pub launch : Bytes → F P ExecResult
  launch command = do
    write_line (codes "service launcher")
    resp ← read_until_prompt
    if has_prefix (first_line resp) (codes "OK")
        then start command
        else fail (proto_err service resp)

  -- `Exec` behind the dial.
  unfoldable pub exec_on : Bytes → FrameConn P → Outcome ExecError (FrameConn P) ExecResult
  exec_on command = map_err handshake_failed frame_handshake >> map_err exec_failed (launch command)

  unfoldable pub exec : Bytes → D P ExecResult
  exec command [] = err dial_failed []
  exec command (none ∷ later) = err dial_failed later
  exec command (some f ∷ later) = elim (exec_on command f) [
    | ok r f' ↦ ok r later
    | err e f' ↦ err e later
  ]

unfoldable pub full_command : Bytes → List Bytes → Bytes
full_command program [] = program
full_command program (a ∷ args) = program ++ b' ' ∷ join (a ∷ args)

-- The number that the shell has printed, or else the launcher's.
unfoldable pub printed_pid : ExecResult → ParsedInt → ℤ
printed_pid r (integer z) = z
printed_pid r int_syntax = r.pid
printed_pid r (int_range b) = r.pid

module _ {P : Type 0} where
  unfoldable pub run : Bytes → List Bytes → D P ℤ
  run program args = do
    r ← exec (full_command program args ++ codes " >/dev/null 2>&1 & echo $!")
    pure (printed_pid r (atoi (trim_space r.output)))
