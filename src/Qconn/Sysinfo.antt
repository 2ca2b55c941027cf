-- ===== src/Qconn/Sysinfo.antt =====
-- internal/qconn/sysinfo.go and proc.go: the parsers of what `pidin` prints, on ASCII text.
pub mod Grouping
use qnx8_qconn_mcp.Prelude.{
  ℕ, zero, suc, ◌+◌, ◌-◌, Bool, true, false, ◌&&◌, ◌||◌, List, [], ◌∷◌, ◌++◌, Option, none, some,
  Bytes, ◌==◌, ltb, leb, if◌then◌else◌, length, drop, codes, has_prefix, cut_once, insert, atoi,
  ParsedInt, integer, int_syntax, int_range, ℤ, pos, negsuc, Parsed, number, bad_syntax,
  out_of_range,
}
use qnx8_qconn_mcp.Qconn.Noise.{split_lines, fields, trim_space}
use qnx8_qconn_mcp.Qconn.Proc.{parse_hex_addr, split_hex_range}

pub record Thread : Type 0 where
  pub tid : ℤ
  pub priority : Bytes
  pub state : Bytes
  pub blocked : Bytes

pub record Process : Type 0 where
  pub pid : ℤ
  pub name : Bytes
  pub num_threads : ℕ
  pub threads : List Thread

-- `strings.Join(fs, " ")`
unfoldable pub join : List Bytes → Bytes
join [] = []
join (f ∷ []) = f
join (f ∷ (g ∷ fs)) = f ++ b' ' ∷ join (g ∷ fs)

-- `pid == p`
abbrev pub same_int : ℤ → ℤ → Bool
same_int (pos a) (pos b) = a == b
same_int (negsuc a) (negsuc b) = a == b
same_int _ _ = false

-- A line of the listing that holds a thread.
pub record Row : Type 0 where
  pub pid : ℤ
  pub name : Bytes
  pub thread : Thread

abbrev row_at : ParsedInt → ParsedInt → Bytes → Bytes → Bytes → List Bytes → Option Row
row_at (integer pid) (integer tid) name prio state rest = some (record {
  pid = pid;
  name = name;
  thread = record { tid = tid; priority = prio; state = state; blocked = join rest };
})
row_at _ _ name prio state rest = none

unfoldable pub row_of : List Bytes → Option Row
row_of (pid ∷ (tid ∷ (name ∷ (prio ∷ (state ∷ rest))))) =
    row_at (atoi pid) (atoi tid) name prio state rest
row_of _ = none

unfoldable pub rows_of : List Bytes → List Row
rows_of [] = []
rows_of (ln ∷ lns) = elim (row_of (fields ln)) [ none ↦ rows_of lns | some r ↦ r ∷ rows_of lns ]

abbrev pub with_thread : Thread → Process → Process
with_thread t p = record p {
  threads = p.threads ++ t ∷ [];
  num_threads = length (p.threads ++ t ∷ []);
}

-- A thread joins its process; the processes stand in the order in which they appeared.
unfoldable pub add_row : Row → List Process → List Process
add_row r [] =
    with_thread r.thread (record { pid = r.pid; name = r.name; num_threads = 0; threads = [] }) ∷ []
add_row r (p ∷ ps) = if same_int p.pid r.pid then with_thread r.thread p ∷ ps else p ∷ add_row r ps

unfoldable pub group : List Row → List Process → List Process
group [] ps = ps
group (r ∷ rs) ps = group rs (add_row r ps)

unfoldable pub parse_pidin_threads : Bytes → List Process
parse_pidin_threads out = group (rows_of (split_lines out)) []

pub record MemUsage : Type 0 where
  pub pid : ℤ
  pub name : Bytes
  pub code : Bytes
  pub data_ : Bytes
  pub stack : Bytes

-- Whether a process has been seen.
unfoldable pub is_seen : ℤ → List MemUsage → Bool
is_seen pid [] = false
is_seen pid (m ∷ ms) = same_int m.pid pid || is_seen pid ms

-- `f[len(f)-k]`
abbrev pub from_end : ℕ → List Bytes → Bytes
from_end k f = elim (drop (length f - k) f) [ [] ↦ [] | x ∷ xs ↦ x ]

abbrev add_usage_at : ParsedInt → Bytes → List Bytes → List MemUsage → List MemUsage
add_usage_at (integer pid) name f ms =
    let m : MemUsage = record {
      pid = pid;
      name = name;
      code = from_end 3 f;
      data_ = from_end 2 f;
      stack = from_end 1 f;
    } in
    if is_seen pid ms then ms else ms ++ m ∷ []
add_usage_at _ name f ms = ms

abbrev add_usage_of : List Bytes → List Bytes → List MemUsage → List MemUsage
add_usage_of (pid ∷ (tid ∷ (name ∷ rest))) f ms = add_usage_at (atoi pid) name f ms
add_usage_of _ f ms = ms

unfoldable pub add_usage : List Bytes → List MemUsage → List MemUsage
add_usage f ms = if ltb (length f) 6 then ms else add_usage_of f f ms

-- The loop of `parsePidinMem`.
unfoldable pub add_usages : List Bytes → List MemUsage → List MemUsage
add_usages [] ms = ms
add_usages (ln ∷ lns) ms = add_usages lns (add_usage (fields ln) ms)

unfoldable pub parse_pidin_mem : Bytes → List MemUsage
parse_pidin_mem out = add_usages (split_lines out) []

abbrev add_key : Bytes → List (Bytes × Bytes) → List (Bytes × Bytes)
add_key ln m = elim (cut_once b':' ln) [
  | none ↦ m
  | some (k, v) ↦ insert (trim_space k) (trim_space v) m
]

-- The loop of `parseKeyColon`.
unfoldable pub add_keys : List Bytes → List (Bytes × Bytes) → List (Bytes × Bytes)
add_keys [] m = m
add_keys (ln ∷ lns) m = add_keys lns (add_key ln m)

unfoldable pub parse_key_colon : Bytes → List (Bytes × Bytes)
parse_key_colon out = add_keys (split_lines out) []

-- The loop of `ProcessInfo`, and its choice where the process is not listed.
unfoldable pub find_process : ℤ → List Process → Option Process
find_process pid [] = none
find_process pid (p ∷ ps) = if same_int p.pid pid then some p else find_process pid ps

abbrev unlisted : ℤ → List Process → Process
unlisted pid (p ∷ []) = p
unlisted pid _ = record { pid = pid; name = []; num_threads = 0; threads = [] }

unfoldable pub process_info : ℤ → Bytes → Process
process_info pid out = elim (find_process pid (parse_pidin_threads out)) [
  | some p ↦ p
  | none ↦ unlisted pid (parse_pidin_threads out)
]
