-- ===== src/Tests/Daemon.antt =====
-- Witnesses for the client and the mock of qconn.
use qnx8_qconn_mcp.Prelude.{
  ◌≡◌, ◌≢◌, refl, true, false, [], ◌∷◌, ◌++◌, none, Bytes, length, take, drop, codes, lookup, same,
  has_prefix, ◌>>◌, arith, ◌+◌, ◌≤◌, ◌%◌, to_decimal, digits_onto, pos, ok, some, All,
}
use qnx8_qconn_mcp.Wire.{timeout}
use qnx8_qconn_mcp.Qconn.Telnet.{IsPlain}
use qnx8_qconn_mcp.Qconn.Noise.{trim_left, trim_right, trim_space}
use qnx8_qconn_mcp.Qconn.Launcher.{replace_all, escape_arg}
use qnx8_qconn_mcp.Qconn.Pattern.{past_blanks, past_word}
use qnx8_qconn_mcp.Qconn.Frame.{FrameConn}
use qnx8_qconn_mcp.Qconn.Exec.{exec_on}
use qnx8_qconn_mcp.Mockqnx.Shell.{
  run_shell, run_switch, run_other, find_submatch, pdebug_at, pidin_p_at, contains,
}
use qnx8_qconn_mcp.Mockqnx.Qconn.Link.{IsBehind}
use qnx8_qconn_mcp.Mcpserver.Base64.{encode, decode}
use qnx8_qconn_mcp.Mcpserver.Target.{Target}
use qnx8_qconn_mcp.Mcpserver.Tools.{ReadFileOut, qconn_read_file, qconn_write_file}
use qnx8_qconn_mcp.Mcpserver.Tools.Files.{qconn_read_file-qconn_write_file}
use qnx8_qconn_mcp.Mockqnx.Qconn.Execs.{exec_on-run_shell}
use qnx8_qconn_mcp.Qconn.Client.{Client, broker, file, launcher, ensure, handshake}
use qnx8_qconn_mcp.Qconn.Transfer.{read_file, read_file_range, write_file, write_file_at}
use qnx8_qconn_mcp.Mockqnx.Qconn.{Session, contents, greeting, set_svc}
use qnx8_qconn_mcp.Mockqnx.Qconn.Serve.{Daemon, react, accepted}
use qnx8_qconn_mcp.Mockqnx.Qconn.Exchange.{idle}
use qnx8_qconn_mcp.Mockqnx.Qconn.Calls.{IsClient, Calls}
use qnx8_qconn_mcp.Mockqnx.Qconn.Opened.{with_open, IsPlainFile}
use qnx8_qconn_mcp.Mockqnx.Qconn.Reads.{read_file-contents}
use qnx8_qconn_mcp.Mockqnx.Qconn.Ranges.{read_file_range-contents}
use qnx8_qconn_mcp.Qconn.Cntl.{read_memory}
use qnx8_qconn_mcp.Qnxdbg.Target.{bytes_at}
use qnx8_qconn_mcp.Mockqnx.Qconn.Memory.{node_path, with_memory, read_memory-bytes_at}
use qnx8_qconn_mcp.Mockqnx.Qconn.Overwrite.{stored}
use qnx8_qconn_mcp.Mockqnx.Qconn.Writes.{Leaves}
use qnx8_qconn_mcp.Mockqnx.Qconn.RoundTrips.{read_file_range-write_file_at, read_file-write_file}
use qnx8_qconn_mcp.Mockqnx.Qconn.Services.{ensure-IsClient}
use qnx8_qconn_mcp.Mockqnx.Qconn.Connects.{IsGreeted, handshake-ensure}

abbrev path : Bytes
path = codes "/tmp/a"

-- A daemon in the file service, which holds one file.
abbrev holding : Session
holding = record { svc = file; fds = []; files = (path, codes "hello qnx") ∷ []; nfd = 0 }

abbrev client_of : Session → Client Daemon
client_of s = record {
  fc = record {
    conn = record {
      react = react;
      peer = idle s;
      input = [];
      sent = [];
      faults = [];
      ending = timeout;
    };
    telnet = false;
    buffered = λ sent waiting. length waiting;
    rounds = 300;
  };
  current = s.svc;
  info = none;
}

holding-IsClient : IsClient 300 file holding (client_of holding)
holding-IsClient = record {
  linked = record { peer = refl; serves = refl; quiet = refl; no_faults = refl; rounds = refl };
  current = refl;
  agreed = refl;
}

path_unlike : has_prefix path (codes "/proc/") ≡ false
unfolding has_prefix
path_unlike = refl

path-IsPlainFile : IsPlainFile 300 path holding
path-IsPlainFile = record {
  written = omega arith;
  some_ = (b'/', codes "tmp/a", refl);
  no_node = path_unlike;
  number = omega arith;
  fits = omega arith;
}

held : contents path holding ≡ codes "hello qnx"
unfolding contents lookup same
held = refl

held_size : length (contents path holding) ≡ 9
unfolding contents lookup same
held_size = refl

node_fits : length (node_path 7) + 128 ≤ 300
unfolding to_decimal digits_onto
node_fits = omega arith

read_memory-bytes_at_example :
    Calls 300 file
      (with_memory 7 holding)
      (bytes_at (λ a. a % 256) 0x1000 3000)
      (read_memory (pos 7) 0x1000 3000 (client_of holding))
read_memory-bytes_at_example =
    read_memory-bytes_at 300 7 0x1000 3000 holding (client_of holding) holding-IsClient
      (omega arith) node_fits (omega arith)

read_file-contents_example :
    Calls 300 file
      (with_open path holding)
      (contents path holding)
      (read_file path (client_of holding))
read_file-contents_example =
    read_file-contents 300 path holding (client_of holding) holding-IsClient path-IsPlainFile
      (omega (arith, held_size)) (omega (arith, held_size))

read_file_range-contents_example :
    Calls 300 file
      (with_open path holding)
      (take 20 (drop 4 (contents path holding)))
      (read_file_range path 4 20 (client_of holding))
read_file_range-contents_example =
    read_file_range-contents 300 4 20 path holding (client_of holding) holding-IsClient
      path-IsPlainFile (omega (arith, held_size)) (omega arith)

read_file_range-write_file_at_example :
    (w : Leaves 300 path
      (stored 12 (codes "!!") (contents path holding))
      (with_open path holding)
      2
      (write_file_at path 12 (codes "!!") (client_of holding)))
    × Calls 300 file (with_open path w.daemon) (codes "!!") (read_file_range path 12 2 w.call.left)
read_file_range-write_file_at_example =
    read_file_range-write_file_at 300 12 path (codes "!!") holding path-IsPlainFile
      (omega (arith, held_size)) (client_of holding) holding-IsClient (omega arith)

read_file-write_file_example :
    (w : Leaves 300 path
      (codes "bye" ++ drop 3 (contents path holding))
      (with_open path holding)
      3
      (write_file path (codes "bye") 0 (client_of holding)))
    × Calls 300 file
        (with_open path w.daemon)
        (codes "bye" ++ drop 3 (contents path holding))
        (read_file path w.call.left)
read_file-write_file_example =
    read_file-write_file 300 0 path (codes "bye") holding (client_of holding) path-IsPlainFile
      holding-IsClient (omega arith) (omega arith) (omega (arith, held_size))
      (omega (arith, held_size))

ensure-IsClient_example :
    Calls 300 launcher (set_svc launcher holding) tt (ensure launcher (client_of holding))
ensure-IsClient_example =
    ensure-IsClient 300 file launcher holding (client_of holding) holding-IsClient tt tt
      (omega arith)

abbrev greeted_client : Client Daemon
greeted_client = record {
  fc = record {
    conn = record {
      react = react;
      peer = accepted;
      input = greeting;
      sent = [];
      faults = [];
      ending = timeout;
    };
    telnet = true;
    buffered = λ sent waiting. length waiting;
    rounds = 128;
  };
  current = broker;
  info = none;
}

greeted_client-IsGreeted : IsGreeted 128 greeted_client
greeted_client-IsGreeted = record {
  greeted = record { peer = refl; serves = refl; waits = refl; no_faults = refl; rounds = refl };
  current = refl;
}

file-ne-broker : file ≢ broker
file-ne-broker e = cc

handshake-ensure_example :
    Calls 128 file (set_svc file accepted.session) tt ((handshake >> ensure file) greeted_client)
handshake-ensure_example =
    handshake-ensure 128 file greeted_client greeted_client-IsGreeted tt file-ne-broker
      (omega arith)

abbrev uname : Bytes
uname = codes "uname -a"

greeted_client-IsBehind : IsBehind 128 greeting accepted.session greeted_client.fc
greeted_client-IsBehind = record {
  peer = refl;
  serves = refl;
  waits = refl;
  no_faults = refl;
  rounds = refl;
}

-- The mock's answer to `uname -a`.
abbrev uname_text : Bytes
uname_text = codes "QNX qnxmock 8.0 2024/01/01-00:00:00UTC x86pc x86_64" ++ 13 ∷ 10 ∷ []

run_shell-uname : run_shell (escape_arg uname) ≡ uname_text
unfolding run_shell run_switch run_other find_submatch pdebug_at pidin_p_at past_word past_blanks
    contains has_prefix trim_space trim_left trim_right escape_arg replace_all
run_shell-uname = refl

uname_text-IsPlain : All IsPlain uname_text
uname_text-IsPlain = omega arith

uname-IsPlain : All IsPlain (run_shell (escape_arg uname))
uname-IsPlain = rw run_shell-uname uname_text-IsPlain

exec_on-run_shell_example :
    (f' : FrameConn Daemon) × (exec_on uname greeted_client.fc
      ≡ ok (record { pid = pos 8300; output = run_shell (escape_arg uname) }) f')
exec_on-run_shell_example =
    exec_on-run_shell 128 uname greeted_client.fc greeted_client-IsBehind (omega arith)
      uname-IsPlain

abbrev greeting_text : Bytes
greeting_text = codes "hello, mcp"

abbrev connected : Target Daemon
connected = record { conn = some (client_of holding); later = [] }

greeting_text-nonempty : greeting_text ≢ []
greeting_text-nonempty e = cc

qconn_read_file-qconn_write_file_example :
    (t1 : Target Daemon) × (t2 : Target Daemon) × (out : ReadFileOut) × (qconn_write_file path
        (encode greeting_text)
        (codes "unused")
        0
        connected
      ≡ ok 10 t1)
    × (qconn_read_file path t1 ≡ ok out t2)
    × (out.size ≡ 10)
    × (decode out.base64 ≡ some greeting_text)
qconn_read_file-qconn_write_file_example =
    qconn_read_file-qconn_write_file 300 0 path greeting_text (codes "unused") holding
      (client_of holding) connected refl path-IsPlainFile holding-IsClient (omega arith)
      greeting_text-nonempty (omega (arith, held_size)) (omega arith) (omega arith) (omega arith)
      (omega arith)
