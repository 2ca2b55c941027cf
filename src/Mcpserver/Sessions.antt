-- ===== src/Mcpserver/Sessions.antt =====
-- internal/mcpserver/tools_debug.go: the debug sessions of a server. A tool that uses a session
-- changes it in place; locks let one call at a time use it.
pub mod Uses
pub mod Invariant
use qnx8_qconn_mcp.Prelude.{
  ℕ, ◌+◌, ◌-◌, Bool, true, false, ◌||◌, List, [], ◌∷◌, ◌++◌, Option, none, some, Bytes, ltb,
  if◌then◌else◌, set, replicate, lookup, insert, remove, codes, to_decimal, ℤ, pos, negsuc, Outcome,
  ok, err,
}
use qnx8_qconn_mcp.Qnxdbg.Client as Dbg
use qnx8_qconn_mcp.Qnxdbg.Info.{num_signals}

-- `sig_table` is none before its first use.
pub record Session (P : Type 0) : Type 0 where
  pub client : Dbg.Client P
  pub pid : ℤ
  pub sig_table : Option Bytes

-- `sequence` is `sessionSeq`, without the bound of an int64; the process has one server. `closed` holds the clients that were closed, as they were left.
pub record Server (P : Type 0) : Type 0 where
  pub sessions : List (Bytes × Session P)
  pub sequence : ℕ
  pub closed : List (Dbg.Client P)

pub data Error : Type 0 where
  unknown_session : Bytes → Error
  invalid_hex : Error
  signal_out_of_range : ℤ → Error
  not_dialed : Error
  client_error : Dbg.Error → Error

abbrev pub S : Type 0 → Type 0 → Type 0
S P A = Server P → Outcome Error (Server P) A

-- `make([]byte, NumSignals)`, filled by 1
abbrev pub default_table : Bytes
default_table = replicate num_signals 1

unfoldable pub table_or_default : Option Bytes → Bytes
table_or_default none = default_table
table_or_default (some t) = t

-- `dbg-%d`
unfoldable pub session_id : ℕ → Bytes
session_id n = codes "dbg-" ++ to_decimal n

module _ {P : Type 0} where
  abbrev pub signal_table : Session P → Bytes
  signal_table s = table_or_default s.sig_table

  unfoldable pub get_session : Bytes → S P (Session P)
  get_session id s = elim (lookup id s.sessions) [
    | none ↦ err (unknown_session id) s
    | some sess ↦ ok sess s
  ]

  abbrev pub keep : Bytes → Session P → Server P → Server P
  keep id sess s = record s { sessions = insert id sess s.sessions }

  -- A tool's use of a session, which it leaves changed on either outcome.
  abbrev pub put_back :
      {A : Type 0} → Bytes → Server P → Outcome Error (Session P) A → Outcome Error (Server P) A
  put_back id s (ok a sess) = ok a (keep id sess s)
  put_back id s (err e sess) = err e (keep id sess s)

  unfoldable pub on_session :
      {A : Type 0} → Bytes → (Session P → Outcome Error (Session P) A) → S P A
  on_session id use_ s = elim (get_session id s) [
    | err e s' ↦ err e s'
    | ok sess s' ↦ put_back id s' (use_ sess)
  ]

  -- A call of the session's client.
  abbrev pub on_client :
      {E A : Type 0}
      → (E → Error)
      → (Dbg.Client P → Outcome E (Dbg.Client P) A)
      → Session P
      → Outcome Error (Session P) A
  on_client wrap call sess = elim (call sess.client) [
    | ok a c ↦ ok a (record sess { client = c })
    | err e c ↦ err (wrap e) (record sess { client = c })
  ]

  -- A new session under the next number.
  unfoldable pub add_session : Dbg.Client P → ℤ → Server P → Bytes × Server P
  add_session client pid s =
      let n = s.sequence + 1 in
      let sess : Session P = record { client = client; pid = pid; sig_table = none } in
      (session_id n, record s { sessions = insert (session_id n) sess s.sessions; sequence = n })

-- `cl.Close()`
abbrev pub close : {P : Type 0} → Dbg.Client P → Server P → Server P
close cl s = record s { closed = cl ∷ s.closed }

-- Whether a number names no signal.
abbrev pub is_no_signal : ℤ → Bool
is_no_signal (pos n) = ltb n 1 || ltb num_signals n
is_no_signal (negsuc n) = true

-- `in.Signal - 1`
abbrev pub signal_place : ℤ → ℕ
signal_place (pos n) = n - 1
signal_place (negsuc n) = 0

-- `tbl[in.Signal-1] = 1`, or 0
abbrev pub dispose : ℤ → Bool → Bytes → Bytes
dispose sig stop_ tbl = set tbl (signal_place sig) (if stop_ then 1 else 0)
