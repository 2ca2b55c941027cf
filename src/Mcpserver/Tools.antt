-- ===== src/Mcpserver/Tools.antt =====
-- internal/mcpserver, tools_files.go, tools_control.go, tools_exec.go, tools_memory.go,
-- tools_process.go and tools_system.go: the tools on qconn, each a call on the server's client. The
-- output that repeats an input is left out, and texts are ASCII.
pub mod Files
use qnx8_qconn_mcp.Prelude.{
  ℕ, Bool, true, false, not, ◌&&◌, ◌||◌, ◌^◌, List, [], ◌∷◌, ◌++◌, Option, none, some, Bytes, ltb,
  leb, ◌==◌, if◌then◌else◌, length, codes, split, to_hex, ℤ, Outcome, ok, err,
}
use qnx8_qconn_mcp.Qconn.Noise.{is_cr, trim_right, trim_space}
use qnx8_qconn_mcp.Qconn.Frame as Frame
use qnx8_qconn_mcp.Qconn.Client.{Client, info_of, versions}
use qnx8_qconn_mcp.Qconn.Transfer.{read_file, write_file, stat, delete, mkdir, chmod}
use qnx8_qconn_mcp.Qconn.Cntl.{signal, kill}
use qnx8_qconn_mcp.Qconn.Cntl as Cntl
use qnx8_qconn_mcp.Qconn.Exec.{ExecResult, exec, run}
use qnx8_qconn_mcp.Qconn.Sysinfo.{Process, MemUsage}
use qnx8_qconn_mcp.Qconn.Segments.{MapSegment}
use qnx8_qconn_mcp.Qconn.Queries.{
  list_processes, process_info_of, process_memory, system_memory, resources, memory_map,
}
use qnx8_qconn_mcp.Mcpserver.Base64.{encode, decode}
use qnx8_qconn_mcp.Mcpserver.Blocks.{decode_string}
use qnx8_qconn_mcp.Mcpserver.Debug.{map_ok}
use qnx8_qconn_mcp.Mcpserver.Target.{
  ToolError, Target, T, qconn_error, invalid_base64, invalid_hex, on_target, on_dials,
}

pub record ReadFileOut : Type 0 where
  pub size : ℕ
  pub base64 : Bytes
  pub text : Bytes

pub record StatOut : Type 0 where
  pub mode : ℤ
  pub size : ℤ

pub record ListDirOut : Type 0 where
  pub entries : List Bytes
  pub raw_ : Bytes

pub record ListProcessesOut : Type 0 where
  pub processes : List Process
  pub count : ℕ
  pub raw_ : Bytes

pub record ReadMemOut : Type 0 where
  pub length_ : ℕ
  pub hex : Bytes
  pub base64 : Bytes

abbrev pub is_text_byte : ℕ → Bool
is_text_byte c = not (c == 0) && not (ltb c 9 || ltb 13 c && ltb c 32)

-- The loop of `isPrintable`.
unfoldable pub all_text : Bytes → Bool
all_text [] = true
all_text (c ∷ b) = is_text_byte c && all_text b

unfoldable pub is_printable : Bytes → Bool
is_printable b = if ltb (2 ^ 20) (length b) then false else all_text b

unfoldable pub read_file_out : Bytes → ReadFileOut
read_file_out b = record {
  size = length b;
  base64 = encode b;
  text = if is_printable b then b else [];
}

-- The content of a call of qconn_write_file: its base64, which comes first, or its text.
unfoldable pub content_of : Bytes → Bytes → Option Bytes
content_of [] text = some text
content_of (c ∷ base64) text = decode (c ∷ base64)

abbrev quoted_char : ℕ → Bytes
quoted_char c = if c == b'"' || c == b'\\' then b'\\' ∷ c ∷ [] else c ∷ []

unfoldable pub quoted_chars : Bytes → Bytes
quoted_chars [] = []
quoted_chars (c ∷ s) = quoted_char c ++ quoted_chars s

-- `%q` of printable ASCII text.
abbrev pub go_quoted : Bytes → Bytes
go_quoted s = b'"' ∷ (quoted_chars s ++ b'"' ∷ [])

-- The loop of qconn_list_dir.
unfoldable pub add_entries : List Bytes → List Bytes
add_entries [] = []
add_entries (ln ∷ lns) =
    let rest = add_entries lns in
    let ln' = trim_right is_cr ln in
    let text = length (trim_space ln') in if text == 0 then rest else ln' ∷ rest

unfoldable pub list_dir_out : ExecResult → ListDirOut
list_dir_out r = record { entries = add_entries (split 10 r.output); raw_ = r.output }

abbrev processes_out : List Process × Bytes → ListProcessesOut
processes_out (procs, raw) = record { processes = procs; count = length procs; raw_ = raw }

abbrev read_mem_out : Bytes → ReadMemOut
read_mem_out b = record { length_ = length b; hex = to_hex b; base64 = encode b }

abbrev stat_out : ℤ × ℤ → StatOut
stat_out (mode, size) = record { mode = mode; size = size }

-- An error that comes with a part of the result.
abbrev pub without_part : {B : Type 0} → B × Frame.Error → ToolError
without_part (b, e) = qconn_error e

module _ {P : Type 0} where
  -- What a tool shows of a result.
  abbrev shown : {A B : Type 0} → (A → B) → T P A → T P B
  shown f m t = map_ok f (m t)

  unfoldable pub qconn_read_file : Bytes → T P ReadFileOut
  qconn_read_file path = shown read_file_out (on_target without_part (read_file path))

  unfoldable pub qconn_write_file : Bytes → Bytes → Bytes → ℕ → T P ℕ
  qconn_write_file path base64 text mode t = elim (content_of base64 text) [
    | none ↦ err invalid_base64 t
    | some content ↦ on_target without_part (write_file path content mode) t
  ]

  unfoldable pub qconn_stat : Bytes → T P StatOut
  qconn_stat path = shown stat_out (on_target qconn_error (stat path))

  unfoldable pub qconn_list_dir : Bytes → T P ListDirOut
  qconn_list_dir path = shown list_dir_out (on_dials (exec (codes "ls -la " ++ go_quoted path)))

  unfoldable pub qconn_delete : Bytes → T P (Unit {0})
  qconn_delete path = on_target qconn_error (delete path)

  unfoldable pub qconn_mkdir : Bytes → ℕ → T P (Unit {0})
  qconn_mkdir path mode = on_target qconn_error (mkdir path mode)

  unfoldable pub qconn_chmod : Bytes → ℕ → T P (Unit {0})
  qconn_chmod path mode = on_target qconn_error (chmod path mode)

  unfoldable pub qconn_signal : ℤ → ℤ → T P (Unit {0})
  qconn_signal pid sig = on_target qconn_error (signal pid sig)

  unfoldable pub qconn_kill : ℤ → T P (Unit {0})
  qconn_kill pid = on_target qconn_error (kill pid)

  unfoldable pub qconn_exec : Bytes → T P ExecResult
  qconn_exec command = on_dials (exec command)

  unfoldable pub qconn_run : Bytes → List Bytes → T P ℤ
  qconn_run program args = on_dials (run program args)

  unfoldable pub qconn_memory_map : ℤ → T P (List MapSegment × Bytes)
  qconn_memory_map pid = on_dials (memory_map pid)

  unfoldable pub qconn_read_memory : ℤ → ℕ → ℕ → T P ReadMemOut
  qconn_read_memory pid addr n =
      shown read_mem_out (on_target without_part (Cntl.read_memory pid addr n))

  unfoldable pub qconn_write_memory : ℤ → ℕ → Bytes → T P ℕ
  qconn_write_memory pid addr hex_data t = elim (decode_string hex_data) [
    | none ↦ err invalid_hex t
    | some bytes ↦ on_target without_part (Cntl.write_memory pid addr bytes) t
  ]

  unfoldable pub qconn_list_processes : T P ListProcessesOut
  qconn_list_processes = shown processes_out (on_dials list_processes)

  unfoldable pub qconn_process_info : ℤ → T P (Process × Bytes)
  qconn_process_info pid = on_dials (process_info_of pid)

  unfoldable pub qconn_process_memory : ℤ → T P (List MemUsage × Bytes)
  qconn_process_memory pid = on_dials (process_memory pid)

  unfoldable pub qconn_resources : ℤ → Bytes → T P (List Bytes × Bytes)
  qconn_resources pid kind = on_dials (resources pid kind)

  unfoldable pub qconn_system_info : T P (List (Bytes × Bytes))
  qconn_system_info = on_target qconn_error info_of

  unfoldable pub qconn_list_services : T P (List (Bytes × ℤ))
  qconn_list_services = on_target qconn_error versions

  unfoldable pub qconn_system_memory : T P (List (Bytes × Bytes) × Bytes)
  qconn_system_memory = on_dials system_memory
