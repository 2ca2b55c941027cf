-- ===== src/Tests/Stub.antt =====
-- Witnesses for the remote protocol, its stub, and the scanner.
use qnx8_qconn_mcp.Prelude.{
  ℕ, ◌≡◌, refl, false, List, [], ◌∷◌, ◌++◌, append-nil, some, Bytes, ok, arith, codes, pos, same,
  has_prefix,
}
use qnx8_qconn_mcp.Wire.{eof}
use qnx8_qconn_mcp.Qnxdbg.Client.Replies.{frames_of}
use qnx8_qconn_mcp.Qnxdbg.Scanner.{feed}
use qnx8_qconn_mcp.Qnxdbg.Scanner.Chunks.{feed_all, concat, feed_all-feed, feed_all-frames_of}
use qnx8_qconn_mcp.Debug.Rsp.{Rsp, packet, send_packet, read_packet, command}
use qnx8_qconn_mcp.Debug.Rsp.Packets.{acked, read_packet-packet}
use qnx8_qconn_mcp.Debug.Rsp.Attempts.{Attempted, send_packet-Attempted}
use qnx8_qconn_mcp.Debug.Session.{Session, Values, parse_stop, read_memory}
use qnx8_qconn_mcp.Debug.Session.Stops.{print_stop, with_values, parse_stop-print_stop}
use qnx8_qconn_mcp.Mockqnx.Rsp.{Stub, initial, react, rsp_handle}
use qnx8_qconn_mcp.Mockqnx.Rsp.Exchange.{IsReady, command-rsp_handle}
use qnx8_qconn_mcp.Mockqnx.Rsp.Memory.{memory_from, read_memory-memory_from}

-- Text with every special byte of the remote protocol.
abbrev marks : Bytes
marks = codes "a$#}*b"

-- A remote end that has sent `input`, and answers each write by `answer`.
abbrev stubborn : Bytes → Bytes → Rsp (Unit {0})
stubborn input answer = record {
  conn = record {
    react = λ s b. (s, answer);
    peer = tt;
    input = input;
    sent = [];
    faults = [];
    ending = eof;
  };
  no_ack = false;
}

abbrev noisy : Rsp (Unit {0})
noisy = stubborn (codes "+-" ++ (packet marks ++ codes "$")) []

read_packet-packet_example : read_packet noisy ≡ ok marks (acked (codes "$") noisy)
read_packet-packet_example =
    read_packet-packet (codes "+-") marks (codes "$") noisy (omega arith) (omega arith) refl refl

send_packet-Attempted_example :
    Attempted 5
      (packet marks)
      (stubborn [] (codes "-"))
      (send_packet marks (stubborn [] (codes "-")))
send_packet-Attempted_example = send_packet-Attempted marks (stubborn [] (codes "-"))

abbrev stub_client : Rsp Stub
stub_client = record {
  conn = record { react = react; peer = initial; input = []; sent = []; faults = []; ending = eof };
  no_ack = false;
}

stub_client-IsReady : IsReady stub_client
stub_client-IsReady = record { idle = (refl, tt); serves = refl; quiet = refl; no_faults = refl }

handle_threads : rsp_handle (codes "qfThreadInfo") ≡ some (codes "m1")
unfolding rsp_handle same has_prefix
handle_threads = refl

command-rsp_handle_example :
    (r : Rsp Stub) × (command (codes "qfThreadInfo") stub_client ≡ ok (codes "m1") r) × IsReady r
command-rsp_handle_example =
    command-rsp_handle (codes "qfThreadInfo") (codes "m1") stub_client stub_client-IsReady
      (omega arith) (omega arith) handle_threads

abbrev stub_session : Session Stub
stub_session = record { rsp = stub_client; pid = pos 1 }

read_memory-memory_from_example :
    (s : Session Stub) × (read_memory 0xffff_ffff_ffff_fff0 (pos 3000) stub_session
      ≡ ok (memory_from 0xffff_ffff_ffff_fff0 3000) s)
    × IsReady s.rsp
read_memory-memory_from_example =
    read_memory-memory_from 0xffff_ffff_ffff_fff0 3000 stub_session (omega arith) (omega arith)
      stub_client-IsReady

abbrev stop_mark : ℕ
stop_mark = b'T'

abbrev two_values : Values
two_values = (codes "thread", codes "p1.1") ∷ (codes "0f", codes "a:b") ∷ []

parse_stop-print_stop_example :
    parse_stop (print_stop 5 two_values)
    ≡ some (
        with_values two_values
          (record { signal = pos 5; thread = []; values = []; raw = print_stop 5 two_values }))
parse_stop-print_stop_example = parse_stop-print_stop 5 two_values (omega arith) (omega arith)

-- A frame in two pieces, the second with the start of another one.
feed_all-feed_example :
    feed_all [] ((0x7e ∷ 1 ∷ []) ∷ (2 ∷ 0x7e ∷ 3 ∷ []) ∷ [])
    ≡ feed [] (concat ((0x7e ∷ 1 ∷ []) ∷ (2 ∷ 0x7e ∷ 3 ∷ []) ∷ []))
feed_all-feed_example = feed_all-feed [] ((0x7e ∷ 1 ∷ []) ∷ (2 ∷ 0x7e ∷ 3 ∷ []) ∷ []) tt

abbrev two_payloads : List Bytes
two_payloads = (0x21 ∷ 0x7e ∷ []) ∷ [] ∷ []

feed_all-frames_of_example :
    ((feed_all [] (frames_of two_payloads ∷ [] ∷ [])).payloads ≡ two_payloads)
    × ((feed_all [] (frames_of two_payloads ∷ [] ∷ [])).buf ≡ [])
feed_all-frames_of_example =
    feed_all-frames_of two_payloads (frames_of two_payloads ∷ [] ∷ []) (omega arith, (tt, tt))
      (append-nil (frames_of two_payloads))
