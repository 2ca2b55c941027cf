-- ===== src/Mockqnx/Qconn.antt =====
-- internal/mockqnx/server.go: the mock of the qconn daemon. A connection is a function of the
-- writes that reach it: bytes wait until a line is whole, or until the payload of a write is there.
-- Allocation is taken to succeed; a slice out of range panics, which ends the daemon.
pub mod Serve
pub mod Requests
pub mod Exchange
pub mod Commands
pub mod Link
pub mod Chunks
pub mod Overwrite
pub mod Answers
pub mod Calls
pub mod Opened
pub mod Reads
pub mod Ranges
pub mod Memory
pub mod Writes
pub mod RoundTrips
pub mod Services
pub mod Connects
pub mod Execs
use qnx8_qconn_mcp.Prelude.{
  ℕ, zero, suc, ◌+◌, ◌-◌, ◌*◌, ◌%◌, ◌^◌, Bool, true, false, ◌||◌, ◌&&◌, List, [], ◌∷◌, ◌++◌, Option,
  none, some, Bytes, ◌==◌, ltb, leb, if◌then◌else◌, length, take, drop, replicate, codes, same,
  has_prefix, cut_once, lookup, insert, ℤ, pos, negsuc, parse_int, int_value, to_hex_number,
  to_decimal,
}
use qnx8_qconn_mcp.Qconn.Noise.{trim_left, trim_right}
use qnx8_qconn_mcp.Qconn.Prompt.{is_regexp_blank, all_blank}
use qnx8_qconn_mcp.Qconn.Client.{Service, broker, launcher, file, cntl, sinfo, service_name}
use qnx8_qconn_mcp.Qconn.Pattern.{past_blanks, past_word}
use qnx8_qconn_mcp.Mockqnx.Shell.{crlf, mock_info, run_shell}

pub record VFile : Type 0 where
  pub path : Bytes
  pub is_proc : Bool

-- `svc` holds the name of a service; `fds` has the latest file first.
pub record Session : Type 0 where
  pub svc : Service
  pub fds : List (ℕ × VFile)
  pub files : List (Bytes × Bytes)
  pub nfd : ℕ

-- `s.fds[fd]`
unfoldable pub find_fd : ℕ → List (ℕ × VFile) → Option VFile
find_fd fd [] = none
find_fd fd ((k, vf) ∷ fds) = if k == fd then some vf else find_fd fd fds

-- `s.files[path]`
unfoldable pub contents : Bytes → Session → Bytes
contents path s = elim (lookup path s.files) [ none ↦ [] | some b ↦ b ]

abbrev pub prompt : Service → Bytes
prompt svc = codes "<qconn-" ++ (service_name svc ++ codes ">")

-- What `Serve` writes before it reads.
abbrev pub greeting : Bytes
greeting =
    codes "QCONN"
    ++ (crlf ++ (prompt broker ++ (codes "error linemode-or-echo-not-supported" ++ crlf)))

-- What a handler makes of a line: it writes and goes on, or writes and hangs up, or waits for the
-- payload of a write, or panics.
pub data Handled : Type 0 where
  goes_on : Bytes → Session → Handled
  hangs_up : Bytes → Session → Handled
  awaits : (fd off n : ℕ) → Session → Handled
  panics : Session → Handled

-- `s.prompt()` behind what was written.
abbrev pub then_prompt : Bytes → Session → Handled
then_prompt out s = goes_on (out ++ prompt s.svc) s

abbrev unknown_command : Bytes
unknown_command = codes "error unknown-command" ++ crlf

unfoldable pub set_svc : Service → Session → Session
set_svc svc s = record s { svc = svc }

unfoldable pub broker_line : Bytes → Session → Handled
broker_line cmd s =
    if same cmd (codes "quit")
    then hangs_up [] s
    else if same cmd (codes "versions ?")
    then then_prompt (codes "versions: broker/256 launcher/256 file/256 cntl/256 sinfo/256" ++ crlf)
        s
    else if has_prefix cmd (codes "versions ")
    then then_prompt (codes "256" ++ crlf) s
    else if same cmd (codes "info")
    then then_prompt (mock_info ++ crlf) s
    else if same cmd (codes "service launcher")
    then then_prompt (codes "OK" ++ crlf) (set_svc launcher s)
    else if same cmd (codes "service file")
    then then_prompt (codes "OK" ++ crlf) (set_svc file s)
    else if same cmd (codes "service cntl")
    then then_prompt (codes "OK" ++ crlf) (set_svc cntl s)
    else then_prompt unknown_command s

-- `(\S+)`, and what stands behind it.
unfoldable pub past_nonblanks : Bytes → Option Bytes
past_nonblanks [] = none
past_nonblanks (c ∷ s) =
    if is_regexp_blank c
    then none
    else some (trim_left (λ d. if is_regexp_blank d then false else true) s)

-- `\s+(\S+)`
unfoldable pub past_argument : Bytes → Option Bytes
past_argument s = elim (past_blanks s) [ none ↦ none | some rest ↦ past_nonblanks rest ]

-- `(.*)"\s*$`: what stands before the last quote.
unfoldable pub up_to_last_quote : Bytes → Option Bytes
up_to_last_quote [] = none
up_to_last_quote (c ∷ s) = elim (up_to_last_quote s) [
  | some t ↦ some (c ∷ t)
  | none ↦ if c == b'"' && all_blank s then some [] else none
]

-- `"(.*)"\s*$`
unfoldable pub in_last_quotes : Bytes → Option Bytes
in_last_quotes [] = none
in_last_quotes (c ∷ s) = if c == b'"' then up_to_last_quote s else none

-- `\s+-c\s+"(.*)"\s*$`
unfoldable pub shell_text : Bytes → Option Bytes
shell_text s = elim (past_blanks s) [
  | none ↦ none
  | some rest ↦ elim (past_word (codes "-c") rest) [ none ↦ none | some q ↦ in_last_quotes q ]
]

abbrev pub start_word : Bytes
start_word = codes "start/flags"

-- `startRe` on a line that begins with its first word: the command in quotes.
unfoldable pub start_command : Bytes → Option Bytes
start_command cmd = elim (past_argument (drop (length start_word) cmd)) [
  | none ↦ none
  | some a ↦ elim (past_argument a) [
    | none ↦ none
    | some b ↦ elim (past_argument b) [ none ↦ none | some c ↦ shell_text c ]
  ]
]

abbrev pub shell_output : Bytes → Bytes
shell_output cmd = elim (start_command cmd) [ none ↦ [] | some text ↦ run_shell text ]

unfoldable pub launcher_line : Bytes → Session → Handled
launcher_line cmd s =
    if same cmd (codes "done") || same cmd (codes "quit")
    then then_prompt [] (set_svc broker s)
    else if same cmd (codes "chdir /")
    then then_prompt (codes "OK" ++ crlf) s
    else if has_prefix cmd start_word
    then hangs_up (codes "OK " ++ (to_decimal 8300 ++ (crlf ++ shell_output cmd))) s
    else then_prompt unknown_command s

unfoldable pub cntl_line : Bytes → Session → Handled
cntl_line cmd s =
    if same cmd (codes "done") || same cmd (codes "quit")
    then then_prompt [] (set_svc broker s)
    else if has_prefix cmd (codes "kill ")
    then then_prompt (codes "ok" ++ crlf) s
    else then_prompt unknown_command s

-- `[0-9a-fA-F]`
abbrev pub is_hex : ℕ → Bool
is_hex c = (leb b'0' c && leb c b'9') || (leb b'a' c && leb c b'f') || (leb b'A' c && leb c b'F')

-- `([0-9a-fA-F]+)`: the digits, and what stands behind them.
unfoldable pub hex_run : Bytes → Bytes × Bytes
hex_run [] = ([], [])
hex_run (c ∷ s) = let (d, rest) = hex_run s in if is_hex c then (c ∷ d, rest) else ([], c ∷ s)

abbrev nonempty_field : Bytes → Bytes → Option (Bytes × Bytes)
nonempty_field [] rest = none
nonempty_field (d ∷ ds) rest = some (d ∷ ds, rest)

-- `:([0-9a-fA-F]+)`: the digits, and what stands behind them.
unfoldable pub hex_field : Bytes → Option (Bytes × Bytes)
hex_field [] = none
hex_field (c ∷ s) =
    let (digits, rest) = hex_run s in if c == b':' then nonempty_field digits rest else none

-- A field that ends the line.
abbrev last_field : Bytes → Option Bytes
last_field s = elim (hex_field s) [
  | none ↦ none
  | some (digits, []) ↦ some digits
  | some (digits, c ∷ rest) ↦ none
]

-- `:([0-9a-fA-F]+):([0-9a-fA-F]+)$`
unfoldable pub two_fields : Bytes → Option (Bytes × Bytes)
two_fields s = elim (hex_field s) [
  | none ↦ none
  | some (a, rest) ↦ elim (last_field rest) [ none ↦ none | some b ↦ some (a, b) ]
]

abbrev path_if : Bytes → Option (Bytes × Bytes) → Option Bytes
path_if path none = none
path_if path (some fields) = some path

-- `openRe`: the path.
unfoldable pub open_path : Bytes → Option Bytes
open_path cmd =
    let found : Option Bytes = elim (cut_once b'"' (drop 3 cmd)) [
      | none ↦ none
      | some ([], rest) ↦ none
      | some (c ∷ path, rest) ↦ path_if (c ∷ path) (two_fields rest)
    ] in
    if has_prefix cmd (codes "o:" ++ b'"' ∷ []) then found else none

-- `n, _ := strconv.ParseInt(digits, 16, 64)`; digits have no sign.
abbrev pub hex_number : Bytes → ℕ
hex_number digits = elim (int_value (parse_int digits)) [ pos n ↦ n | negsuc n ↦ 0 ]

-- The three numbers of a request.
pub record Request : Type 0 where
  pub fd : ℕ
  pub off : ℕ
  pub n : ℕ

abbrev request_of : Bytes → Option (Bytes × Bytes) → Option Request
request_of fd none = none
request_of fd (some (off, n)) =
    some (record { fd = hex_number fd; off = hex_number off; n = hex_number n })

-- `rwRe`, on a line that begins with one of its letters.
unfoldable pub request : Bytes → Option Request
request cmd = elim (hex_field (drop 1 cmd)) [
  | none ↦ none
  | some (fd, rest) ↦ request_of fd (two_fields rest)
]

-- `byte((off + int64(i)) & 0xff)` for the next `n` places.
unfoldable pub proc_bytes : ℕ → ℕ → Bytes
proc_bytes off zero = []
proc_bytes off (suc n) = off % 256 ∷ proc_bytes (off + 1) n

-- A part of a file. An `off + n` that leaves an `int64` is negative there, and panics.
unfoldable pub file_part : Bytes → ℕ → ℕ → Option Bytes
file_part buf off n =
    if leb (length buf) off
    then some []
    else if leb (2 ^ 63) (off + n)
    then none
    else some (take n (drop off buf))

unfoldable pub read_vfile : ℕ → ℕ → ℕ → Session → Option Bytes
read_vfile fd off n s = elim (find_fd fd s.fds) [
  | none ↦ some []
  | some vf ↦ if vf.is_proc then some (proc_bytes off n) else file_part (contents (vf.path) s) off n
]

-- What is kept of a file when `bytes` are stored at `off`; a gap is filled with zeros.
unfoldable pub overwrite : ℕ → Bytes → Bytes → Bytes
overwrite off bytes buf =
    let grown = buf ++ replicate (off + length bytes - length buf) 0 in
    take off grown ++ (bytes ++ drop (off + length bytes) grown)

-- An `off + len(data)` that leaves an `int` is negative there, and panics.
unfoldable pub store_vfile : ℕ → ℕ → Bytes → Session → Option Session
store_vfile fd off bytes s = elim (find_fd fd s.fds) [
  | none ↦ some s
  | some vf ↦
      let stored = insert (vf.path) (overwrite off bytes (contents (vf.path) s)) s.files in
      if vf.is_proc
      then some s
      else if leb (2 ^ 63) (off + length bytes)
      then none
      else some (record s { files = stored })
]

abbrev proc_prefix : Bytes
proc_prefix = codes "/proc/"

-- `strings.HasSuffix(path, "/as")`
unfoldable pub ends_in_as : Bytes → Bool
ends_in_as [] = false
ends_in_as (c ∷ s) = same (c ∷ s) (codes "/as") || ends_in_as s

-- What an opened path is: whether it is the memory of a process, its size, and the files then.
pub record Entry : Type 0 where
  pub memory : Bool
  pub size : ℕ
  pub kept : List (Bytes × Bytes)

abbrev proc_node : Bytes
proc_node = codes "synthetic proc node" ++ 10 ∷ []

unfoldable pub entry : Bytes → Session → Entry
entry path s =
    if has_prefix path proc_prefix && ends_in_as path
    then record { memory = true; size = 0x7fffffff; kept = s.files }
    else if has_prefix path proc_prefix
    then record { memory = false; size = length proc_node; kept = insert path proc_node s.files }
    else record { memory = false; size = length (contents path s); kept = s.files }

-- 0100644
abbrev pub mock_mode : ℕ
mock_mode = 0x81a4

abbrev pub open_reply : ℕ → ℕ → Bytes → Bytes
open_reply fd size path =
    codes "o:"
    ++ (to_hex_number fd
        ++ b':'
          ∷ (to_hex_number mock_mode
              ++ b':' ∷ (to_hex_number size ++ b':' ∷ b'"' ∷ (path ++ b'"' ∷ crlf))))

abbrev opened_session : Bytes → Entry → Session → Session
opened_session path e s = record s {
  fds = (s.nfd + 3, record { path = path; is_proc = e.memory }) ∷ s.fds;
  files = e.kept;
  nfd = s.nfd + 1;
}

unfoldable pub open_line : Bytes → Session → Handled
open_line cmd s = elim (open_path cmd) [
  | none ↦ then_prompt (codes "error bad-open" ++ crlf) s
  | some path ↦
      then_prompt (open_reply (s.nfd + 3) ((entry path s).size) path)
        (opened_session path (entry path s) s)
]

abbrev pub read_reply : Bytes → Bytes
read_reply got = codes "o:" ++ (to_hex_number (length got) ++ (codes ":0:0" ++ (crlf ++ got)))

unfoldable pub read_line : Bytes → Session → Handled
read_line cmd s = elim (request cmd) [
  | none ↦ then_prompt (codes "error bad-read" ++ crlf) s
  | some r ↦ elim (read_vfile r.fd r.off r.n s) [
    | none ↦ panics s
    | some got ↦ then_prompt (read_reply got) s
  ]
]

unfoldable pub write_line : Bytes → Session → Handled
write_line cmd s = elim (request cmd) [
  | none ↦ then_prompt (codes "error bad-write" ++ crlf) s
  | some r ↦ awaits r.fd r.off r.n s
]

-- The payload of a write is there.
unfoldable pub payload_line : ℕ → ℕ → Bytes → Session → Handled
payload_line fd off bytes s = elim (store_vfile fd off bytes s) [
  | none ↦ panics s
  | some s' ↦ then_prompt (codes "o:" ++ (to_hex_number (length bytes) ++ (codes ":0" ++ crlf))) s'
]

unfoldable pub file_line : Bytes → Session → Handled
file_line cmd s =
    if same cmd (codes "q") || same cmd (codes "done") || same cmd (codes "quit")
    then then_prompt [] (set_svc broker s)
    else if has_prefix cmd (codes "o:")
    then open_line cmd s
    else if has_prefix cmd (codes "c:")
        || has_prefix cmd (codes "d:")
        || has_prefix cmd (codes "a:")
    then then_prompt (codes "o" ++ crlf) s
    else if has_prefix cmd (codes "r:")
    then read_line cmd s
    else if has_prefix cmd (codes "w:")
    then write_line cmd s
    else then_prompt unknown_command s

abbrev pub handle_line : Service → Bytes → Session → Handled
handle_line broker = broker_line
handle_line launcher = launcher_line
handle_line file = file_line
handle_line cntl = cntl_line
handle_line sinfo = λ cmd s. hangs_up [] s

unfoldable pub dispatch : Bytes → Session → Handled
dispatch cmd s = handle_line s.svc cmd s
