-- ===== src/Mockqnx/Qconn/Serve.antt =====
-- internal/mockqnx/server.go: the loop of `Serve`, over the bytes that have reached the daemon.
use qnx8_qconn_mcp.Prelude.{
  ℕ, zero, suc, ◌+◌, ◌*◌, Bool, true, false, ◌||◌, [], ◌++◌, Option, none, some, Bytes, ◌==◌, leb,
  if◌then◌else◌, length, take, drop, cut_once,
}
use qnx8_qconn_mcp.Qconn.Noise.{trim_right}
use qnx8_qconn_mcp.Qconn.Client.{broker}
use qnx8_qconn_mcp.Mockqnx.Qconn.{
  Session, Handled, goes_on, hangs_up, awaits, panics, greeting, dispatch, payload_line,
}

-- A write whose payload is not there yet.
pub record Transfer : Type 0 where
  pub fd : ℕ
  pub off : ℕ
  pub n : ℕ

-- A served connection: what came in and was not read, and whether the daemon has ended it.
pub record Daemon : Type 0 where
  pub session : Session
  pub pending : Bytes
  pub awaited : Option Transfer
  pub closed : Bool

-- What a handler has left, behind which `rest` is to be read, and what it wrote.
unfoldable pub handled : Handled → Bytes → Daemon × Bytes
handled (goes_on out s) rest =
    (record { session = s; pending = rest; awaited = none; closed = false }, out)
handled (hangs_up out s) rest =
    (record { session = s; pending = rest; awaited = none; closed = true }, out)
handled (awaits fd off n s) rest = (
  record {
    session = s;
    pending = rest;
    awaited = some (record { fd = fd; off = off; n = n });
    closed = false;
  },
  [],
)
handled (panics s) rest =
    (record { session = s; pending = rest; awaited = none; closed = true }, [])

abbrev pub is_line_end : ℕ → Bool
is_line_end c = c == 13 || c == 10

-- `s.br.ReadString` and the call of `dispatch`; nothing while no line is whole.
unfoldable pub serve_line : Daemon → Option (Daemon × Bytes)
serve_line d = elim (cut_once 10 d.pending) [
  | none ↦ none
  | some (line, rest) ↦ some (handled (dispatch (trim_right is_line_end line) d.session) rest)
]

-- `readFull` of a payload, and what follows; nothing while it is not whole.
unfoldable pub serve_payload : Transfer → Daemon → Option (Daemon × Bytes)
serve_payload t d =
    let stored = payload_line t.fd t.off (take t.n d.pending) d.session in
    if leb t.n (length d.pending) then some (handled stored (drop t.n d.pending)) else none

unfoldable pub serve_one : Daemon → Option (Daemon × Bytes)
serve_one d =
    let next : Option (Daemon × Bytes) = elim d.awaited [
      | none ↦ serve_line d
      | some t ↦ serve_payload t d
    ] in
    if d.closed then none else next

-- The loop of `Serve` by the rounds left.
unfoldable pub serve_rounds : ℕ → Daemon → Daemon × Bytes
serve_rounds zero d = (d, [])
serve_rounds (suc k) d = elim (serve_one d) [
  | none ↦ (d, [])
  | some (d', out) ↦ let (d'', later) = serve_rounds k d' in (d'', out ++ later)
]

-- What the daemon does with bytes that reach it. A line takes one byte at least, and one payload
-- may stand behind each.
unfoldable pub react : Daemon → Bytes → Daemon × Bytes
react d b =
    let waiting = d.pending ++ b in
    serve_rounds (2 * length waiting + 2) (record d { pending = waiting })

-- A connection that was accepted: the greeting has been written.
abbrev pub accepted : Daemon
accepted = record {
  session = record { svc = broker; fds = []; files = []; nfd = 0 };
  pending = [];
  awaited = none;
  closed = false;
}

abbrev pub written_first : Bytes
written_first = greeting
