-- ===== src/Mockqnx/Shell.antt =====
-- internal/mockqnx/shell.go: the canned output of the mock's shell, on ASCII text. The responder that
-- `pdebug` starts on its own port is the stub of Rsp and no part of this.
use qnx8_qconn_mcp.Prelude.{
  Bool, false, ◌||◌, ◌&&◌, List, [], ◌∷◌, ◌++◌, Option, none, some, Bytes, if◌then◌else◌, drop,
  codes, same, has_prefix, split,
}
use qnx8_qconn_mcp.Qconn.Noise.{trim_space, fields}
use qnx8_qconn_mcp.Qconn.Pattern.{digits_run, nonempty, past_word}

-- Lines, each with a line feed behind it.
abbrev pub lines : List Bytes → Bytes
lines [] = []
lines (ln ∷ lns) = ln ++ 10 ∷ lines lns

abbrev pub crlf : Bytes
crlf = 13 ∷ 10 ∷ []

abbrev pub mock_info : Bytes
mock_info =
    codes "ARCHITECTURE=x86_64 CPU=x86_64 ENDIAN=le HASVERSION=1 HOSTNAME=qnxmock "
    ++ (codes "MACHINE=x86pc NUM_SRVCS=1 OS=nto RELEASE=8.0 SYSNAME=QNX "
        ++ codes "TIMEZONE=UTC0 VERSION=2024/01/01-00:00:00UTC")

abbrev pub pidin_threads : Bytes
pidin_threads = lines (
    codes "     pid tid name               prio STATE       Blocked"
    ∷ codes "       1   1 /procnto-smp-instr  255r RUNNING"
    ∷ codes "       1   2 /procnto-smp-instr   10r RECEIVE     1"
    ∷ codes "    4099   1 /proc/boot/devc-con   10r RECEIVE     1"
    ∷ codes "    8200   1 /proc/boot/qconn      10r REPLY       1"
    ∷ codes "    8200   2 /proc/boot/qconn      10r RECEIVE     1"
    ∷ codes "    8300   1 /bin/sh               10r REPLY       1"
    ∷ [])

abbrev pub pidin_mem : Bytes
pidin_mem = lines (
    codes "     pid tid name               prio STATE             code  data        stack"
    ∷ codes "       1   1 procnto-smp-instr   255r RUNNING            644K  6321K    4096(516K)"
    ∷ codes "    8200   1 qconn                10r REPLY              52K   148K     4096(132K)"
    ∷ [])

abbrev pub pidin_info : Bytes
pidin_info = lines (
    codes "CPU:X86_64 Release:8.0"
    ∷ codes "Processes: 6 Threads: 8"
    ∷ codes "FreeMemory: 805306368 TotalMemory: 1073741824"
    ∷ codes "BootTime: 2024/01/01-00:00:00"
    ∷ [])

abbrev pub pidin_pmem : Bytes
pidin_pmem = lines (
    codes "     pid tid name               prio STATE"
    ∷ codes "    8200   1 qconn                10r REPLY"
    ∷ codes "                0x08048000-0x08050000   r-x  /proc/boot/qconn"
    ∷ codes "                0x08050000-0x08052000   rw-  /proc/boot/qconn"
    ∷ codes "                0xb8300000-0xb8320000   rw-  [stack]"
    ∷ [])

abbrev pub ls_output : Bytes
ls_output =
    codes "total 0"
    ++ (crlf
        ++ (codes "drwxr-xr-x  2 root root 0 Jan  1 00:00 ."
            ++ (crlf ++ (codes "-rwxr-xr-x  1 root root 52K Jan  1 00:00 qconn" ++ crlf))))

-- `pdebug\s+(\d+)` at the front of a text: the digits.
unfoldable pub pdebug_at : Bytes → Option Bytes
pdebug_at s = elim (past_word (codes "pdebug") s) [
  | none ↦ none
  | some rest ↦ nonempty (digits_run rest)
]

abbrev pid_of_option : Bytes → Option Bytes
pid_of_option s = elim (past_word (codes "-p") s) [
  | none ↦ none
  | some rest ↦ nonempty (digits_run rest)
]

-- `pidin\s+-p\s+(\d+)` at the front of a text: the digits.
unfoldable pub pidin_p_at : Bytes → Option Bytes
pidin_p_at s = elim (past_word (codes "pidin") s) [ none ↦ none | some rest ↦ pid_of_option rest ]

-- `FindStringSubmatch`: the match at the first place that has one.
unfoldable pub find_submatch : (Bytes → Option Bytes) → Bytes → Option Bytes
find_submatch here [] = here []
find_submatch here (c ∷ s) = elim (here (c ∷ s)) [ some m ↦ some m | none ↦ find_submatch here s ]

-- `strings.Contains(s, part)`
unfoldable pub contains : Bytes → Bytes → Bool
contains [] part = has_prefix [] part
contains (c ∷ s) part = has_prefix (c ∷ s) part || contains s part

abbrev first_is : List Bytes → Bytes → Bool
first_is [] word = false
first_is (f ∷ fs) word = same f word

-- The loop of `filterPidin` over the lines.
unfoldable pub keep_rows : List Bytes → Bytes → Bytes
keep_rows [] pid = []
keep_rows (ln ∷ lns) pid =
    let later = keep_rows lns pid in
    if first_is (fields ln) (codes "pid") || first_is (fields ln) pid
    then ln ++ 10 ∷ later
    else later

unfoldable pub filter_pidin : Bytes → Bytes → Bytes
filter_pidin listing pid = keep_rows (split 10 listing) pid

-- The cases of `runShell` that ask for no memory and no information of `pidin`.
unfoldable pub run_other : Bytes → Bytes
run_other cmd =
    if contains cmd (codes "pidin")
    then pidin_threads
    else if has_prefix cmd (codes "ls ")
    then ls_output
    else if has_prefix cmd (codes "uname")
    then codes "QNX qnxmock 8.0 2024/01/01-00:00:00UTC x86pc x86_64" ++ crlf
    else if has_prefix cmd (codes "echo ")
    then drop 5 cmd ++ crlf
    else codes "mock-shell: " ++ (cmd ++ crlf)

-- The switch of `runShell`.
unfoldable pub run_switch : Bytes → Bytes
run_switch cmd =
    let asked = find_submatch pidin_p_at cmd in
    let of_pidin = contains cmd (codes "pidin") in
    let of_memory = of_pidin && contains cmd (codes "mem") in
    let by_pid : Bytes = elim asked [
      | some pid ↦ filter_pidin pidin_threads pid
      | none ↦ run_other cmd
    ] in
    let memory : Bytes = elim asked [ some pid ↦ pidin_pmem | none ↦ pidin_mem ] in
    if of_memory
    then memory
    else if of_pidin && contains cmd (codes "info")
    then pidin_info
    else by_pid

-- `runShell`; the digits of a port are all that `pdebug` is asked for.
unfoldable pub run_shell : Bytes → Bytes
run_shell line =
    let cmd = trim_space line in
    elim (find_submatch pdebug_at cmd) [ some port ↦ codes "4242" ++ crlf | none ↦ run_switch cmd ]
