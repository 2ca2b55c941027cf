-- ===== src/Qconn/Queries.antt =====
-- internal/qconn/sysinfo.go and proc.go: what the shell's pidin is asked, each call with the raw text
-- beside what its parser makes of it.
use qnx8_qconn_mcp.Prelude.{
  zero, suc, Bool, true, false, List, [], ◌∷◌, ◌++◌, Bytes, if◌then◌else◌, codes, ℤ, pos, negsuc,
  ok, err, pure, ◌>>=◌,
}
use qnx8_qconn_mcp.Qconn.Noise.{split_lines}
use qnx8_qconn_mcp.Qconn.Cntl.{decimal}
use qnx8_qconn_mcp.Qconn.Sysinfo.{
  Process, MemUsage, parse_pidin_threads, parse_pidin_mem, parse_key_colon, process_info,
}
use qnx8_qconn_mcp.Qconn.Segments.{MapSegment, parse_map_segments}
use qnx8_qconn_mcp.Qconn.Exec.{D, exec}

-- `pid > 0`
unfoldable pub is_positive : ℤ → Bool
is_positive (pos zero) = false
is_positive (pos (suc n)) = true
is_positive (negsuc n) = false

unfoldable pub asks_memory : ℤ → Bytes
asks_memory pid =
    if is_positive pid
    then codes "pidin -p " ++ (decimal pid ++ codes " mem")
    else codes "pidin mem"

-- `-p <pid>`, where a process is asked about.
unfoldable pub of_process : ℤ → Bytes
of_process pid = if is_positive pid then codes " -p " ++ decimal pid else []

-- The listing that is asked for, if it has a name.
unfoldable pub of_kind : Bytes → Bytes
of_kind [] = []
of_kind (c ∷ kind) = b' ' ∷ (c ∷ kind)

abbrev pub asks_listing : ℤ → Bytes → Bytes
asks_listing pid kind = codes "pidin" ++ (of_process pid ++ of_kind kind)

module _ {P : Type 0} where
  -- The default listing, or else what the first one said.
  abbrev fall_back : Bytes → D P (List Process × Bytes)
  fall_back out later = elim (exec (codes "pidin") later) [
    | ok r later' ↦ ok (parse_pidin_threads r.output, r.output) later'
    | err e later' ↦ ok ([], out) later'
  ]

  -- Falls back to the default listing where the first one has no process.
  unfoldable pub listed : Bytes → List Process → D P (List Process × Bytes)
  listed out [] = fall_back out
  listed out (p ∷ procs) = pure (p ∷ procs, out)

  unfoldable pub list_processes : D P (List Process × Bytes)
  list_processes = do
    r ← exec (codes "pidin -F " ++ b'"' ∷ (codes "%a %b %N %p %J %B" ++ b'"' ∷ []))
    listed r.output (parse_pidin_threads r.output)

  unfoldable pub process_info_of : ℤ → D P (Process × Bytes)
  process_info_of pid = do
    r ← exec (codes "pidin -p " ++ decimal pid)
    pure (process_info pid r.output, r.output)

  unfoldable pub process_memory : ℤ → D P (List MemUsage × Bytes)
  process_memory pid = do r ← exec (asks_memory pid); pure (parse_pidin_mem r.output, r.output)

  unfoldable pub system_memory : D P (List (Bytes × Bytes) × Bytes)
  system_memory = do r ← exec (codes "pidin info"); pure (parse_key_colon r.output, r.output)

  unfoldable pub resources : ℤ → Bytes → D P (List Bytes × Bytes)
  resources pid kind = do r ← exec (asks_listing pid kind); pure (split_lines r.output, r.output)

  unfoldable pub memory_map : ℤ → D P (List MapSegment × Bytes)
  memory_map pid = do
    r ← exec (codes "pidin -p " ++ (decimal pid ++ codes " mem"))
    pure (parse_map_segments r.output, r.output)
