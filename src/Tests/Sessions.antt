-- ===== src/Tests/Sessions.antt =====
-- Witnesses for the debug tools.
use qnx8_qconn_mcp.Prelude.{
  ℕ, ◌≡◌, ◌≢◌, refl, true, false, List, [], ◌∷◌, Bytes, codes, lookup, insert, same, Option, none,
  some, pos, to_decimal, digits_onto, state, arith,
}
use qnx8_qconn_mcp.Mockqnx.Dsmsg as Mock
use qnx8_qconn_mcp.Tests.Clients.{mock_client}
use qnx8_qconn_mcp.Mcpserver.Blocks.{printable_strings}
use qnx8_qconn_mcp.Mcpserver.Blocks.Strings.{block_of, long_runs, printable_strings-block_of}
use qnx8_qconn_mcp.Mcpserver.Sessions.{Session, Server, session_id, add_session}
use qnx8_qconn_mcp.Mcpserver.Sessions.Invariant.{IsValid, add_session-IsValid}
use qnx8_qconn_mcp.Mcpserver.Debug.{debug_handle_signal}
use qnx8_qconn_mcp.Mcpserver.Debug.Signals.{Disposed, debug_handle_signal-Disposed}
use qnx8_qconn_mcp.Mcpserver.Debug.Calls.{
  Call, attach, handle_signal, read_memory, detach, named, failure, run, run_all, started,
}
use qnx8_qconn_mcp.Mcpserver.Debug.Calls.Balance.{held}
use qnx8_qconn_mcp.Mcpserver.Debug.Calls.Unknown.{or_unknown, refused, run_unknown}
use qnx8_qconn_mcp.Mcpserver.Debug.Calls.Safety.{run_all-IsValid, run_isolates}

abbrev first_id : Bytes
first_id = codes "dbg-1"

abbrev calls : List (Call Mock.Server)
calls =
    attach (some mock_client) (pos 1234)
    ∷ handle_signal first_id (pos 5) false
    ∷ read_memory first_id 4096 16
    ∷ attach none (pos 1)
    ∷ detach first_id
    ∷ []

run_all-IsValid_example : IsValid (run_all calls started) × (held (run_all calls started) ≡ 1)
run_all-IsValid_example = run_all-IsValid calls

-- One session, as an attach adds it.
abbrev the_session : Session Mock.Server
the_session = record { client = mock_client; pid = pos 7; sig_table = none }

abbrev one_session : Server Mock.Server
one_session = (add_session mock_client (pos 7) started).1

one_session-IsValid : IsValid one_session
one_session-IsValid =
    add_session-IsValid mock_client (pos 7) started (record { entries = tt; distinct = tt })

known_session : lookup first_id one_session.sessions ≡ some the_session
unfolding lookup insert same session_id to_decimal digits_onto add_session
known_session = refl

not_named : named (attach (some mock_client) (pos 9)) ≢ some first_id
not_named h = cc

run_isolates_example :
    lookup first_id (run (attach (some mock_client) (pos 9)) one_session).sessions
    ≡ some the_session
run_isolates_example =
    run_isolates (attach (some mock_client) (pos 9)) first_id one_session one_session-IsValid
      not_named known_session

no_session : ◌≡◌ {A = Option (Session Mock.Server)} (lookup (codes "dbg-9") []) none
unfolding lookup
no_session = refl

run_unknown_example :
    (run (handle_signal (codes "dbg-9") (pos 99) true) (started {P = Mock.Server}) ≡ started)
    × (failure (handle_signal (codes "dbg-9") (pos 99) true) (started {P = Mock.Server})
        ≡ some (
            or_unknown
              (refused {P = Mock.Server} (handle_signal (codes "dbg-9") (pos 99) true))
              (codes "dbg-9")))
run_unknown_example =
    run_unknown (handle_signal (codes "dbg-9") (pos 99) true) (codes "dbg-9") started refl
      no_session

debug_handle_signal-Disposed_example :
    Disposed 72 false first_id the_session
      (state (debug_handle_signal first_id (pos 72) false one_session))
debug_handle_signal-Disposed_example =
    debug_handle_signal-Disposed first_id 72 false one_session the_session one_session-IsValid
      known_session (omega arith) (omega arith)

abbrev runs : List (Bytes × ℕ)
runs = (codes "/bin/sh", 0) ∷ (codes "x", 127) ∷ ([], 10) ∷ []

printable_strings-block_of_example :
    printable_strings (block_of runs (codes "io")) ≡ long_runs runs (codes "io")
printable_strings-block_of_example =
    printable_strings-block_of runs (codes "io") (ground arith) (ground arith)
