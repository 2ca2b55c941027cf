-- ===== src/Qnxdbg/Memory.antt =====
-- internal/qnxdbg/commands.go: `ReadMemory` and `WriteMemory`, in chunks.
pub mod Bounds
pub mod Refines
pub mod Writes
use qnx8_qconn_mcp.Prelude.{
  ℕ, zero, suc, ◌+◌, ◌-◌, ◌%◌, ◌^◌, Bool, true, false, List, [], ◌∷◌, ◌++◌, Bytes, ◌==◌, ltb,
  if◌then◌else◌, length, take, drop, replicate, Outcome, ok, err,
}
use qnx8_qconn_mcp.Qnxdbg.Client.{
  Client, Error, target_error, spent, transact, resp_code, resp_body, le16, le64,
}
use qnx8_qconn_mcp.Qnxdbg.Commands.{resp_err}

abbrev pub cmd_memrd : ℕ
cmd_memrd = 9

abbrev pub cmd_memwr : ℕ
cmd_memwr = 10

abbrev pub max_chunk : ℕ
max_chunk = 0x400

-- `if want > maxChunk { want = maxChunk }`
abbrev pub chunk : ℕ → ℕ
chunk want = if ltb max_chunk want then max_chunk else want

-- `addr + uint64(done)`
abbrev pub address : ℕ → ℕ → ℕ
address addr done = (addr + done) % 2 ^ 64

abbrev pub memrd_body : ℕ → ℕ → Bytes
memrd_body addr size = replicate 4 0 ++ (le64 addr ++ (le16 size ++ replicate 6 0))

abbrev pub memwr_body : ℕ → Bytes → Bytes
memwr_body addr bytes = replicate 4 0 ++ (le64 addr ++ bytes)

-- An error of `ReadMemory` comes with the bytes read so far, one of `WriteMemory` with the number
-- of bytes written.
abbrev pub ReadResult : Type 0 → Type 0
ReadResult P = Outcome (Bytes × Error) (Client P) Bytes

abbrev pub WriteResult : Type 0 → Type 0
WriteResult P = Outcome (ℕ × Error) (Client P) ℕ

-- `if len(data) > want { data = data[:want] }`
abbrev pub cut : ℕ → Bytes → Bytes
cut want bytes = if ltb want (length bytes) then take want bytes else bytes

-- The loop on fuel. A round that goes on has read `want` bytes, so `n` rounds are enough.
unfoldable pub read_loop : {P : Type 0} → ℕ → ℕ → ℕ → Bytes → Client P → ReadResult P
read_loop zero addr n out c = err (out, spent) c
read_loop (suc fuel) addr n out c =
    let want = chunk (n - length out) in
    let round = transact cmd_memrd (memrd_body (address addr (length out)) want) c in
    let next : ReadResult _ = elim round [
      | err e c' ↦ err (out, e) c'
      | ok p c' ↦
          let got = cut want (resp_body p) in
          let more = read_loop fuel addr n (out ++ got) c' in
          if resp_code p == resp_err
          then if ltb 0 (length out) then ok out c' else err ([], target_error cmd_memrd) c'
          else if length (resp_body p) == 0
          then ok out c'
          else if ltb (length got) want
          then ok (out ++ got) c'
          else more
    ] in
    if ltb (length out) n then next else ok out c

-- `n` is an `int` of the source; a negative one reads nothing, as 0 does.
unfoldable pub read_memory : {P : Type 0} → ℕ → ℕ → Client P → ReadResult P
read_memory addr n = read_loop (suc n) addr n []

-- `end := total + maxChunk; if end > len(data) { end = len(data) }`
abbrev pub chunk_end : ℕ → ℕ → ℕ
chunk_end total len = if ltb len (total + max_chunk) then len else total + max_chunk

-- The loop on fuel; `data[total:end]` is `take (end - total) (drop total data)`.
unfoldable pub write_loop : {P : Type 0} → ℕ → ℕ → Bytes → ℕ → Client P → WriteResult P
write_loop zero addr bytes total c = err (total, spent) c
write_loop (suc fuel) addr bytes total c =
    let stop = chunk_end total (length bytes) in
    let part = take (stop - total) (drop total bytes) in
    let round = transact cmd_memwr (memwr_body (address addr total) part) c in
    let next : WriteResult _ = elim round [
      | err e c' ↦ err (total, e) c'
      | ok p c' ↦
          let more = write_loop fuel addr bytes stop c' in
          if resp_code p == resp_err then err (total, target_error cmd_memwr) c' else more
    ] in
    if ltb total (length bytes) then next else ok total c

unfoldable pub write_memory : {P : Type 0} → ℕ → Bytes → Client P → WriteResult P
write_memory addr bytes = write_loop (suc (length bytes)) addr bytes 0
