-- ===== src/Qnxdbg/Memory/Bounds.antt =====
-- What holds of `ReadMemory` and `WriteMemory` against every target.
use qnx8_qconn_mcp.Prelude.{
  ℕ, zero, suc, ◌+◌, ◌-◌, ◌<◌, ◌≤◌, ◌≡◌, ◌≢◌, ap, ◌∙◌, Bool, true, false, [], ◌++◌, Bytes, ltb,
  if◌then◌else◌, length, length-append, length-take, take, drop, ok, err, Outcome, arith,
  Outcome-cases, inl, inr,
}
use qnx8_qconn_mcp.Qnxdbg.Client.{Client, Error, spent, transact, resp_body}
use qnx8_qconn_mcp.Qnxdbg.Client.Exchange.{transact_sub-ne-spent}
use qnx8_qconn_mcp.Qnxdbg.Memory.{
  cmd_memrd, cmd_memwr, chunk, address, memrd_body, memwr_body, ReadResult, WriteResult, cut,
  read_loop, read_memory, chunk_end, write_loop, write_memory,
}

-- The bytes that a read hands over, also beside an error.
abbrev pub bytes_of : {P : Type 0} → ReadResult P → Bytes
bytes_of (ok b c) = b
bytes_of (err (b, e) c) = b

transact-ne-spent :
    {P : Type 0} (cmd : ℕ) (body : Bytes) (c c' : Client P) → transact cmd body c ≢ err spent c'
unfolding transact
transact-ne-spent cmd body = transact_sub-ne-spent cmd 0 body

length-cut : (want : ℕ) (b : Bytes) → length (cut want b) ≤ want
length-cut want b = ground (arith, length-take want b)

read_loop-length :
    {P : Type 0} (fuel addr n : ℕ) (out : Bytes) (c : Client P)
    → length out ≤ n
    → length (bytes_of (read_loop fuel addr n out c)) ≤ n
unfolding read_loop
read_loop-length zero addr n out c h = h
read_loop-length (suc fuel) addr n out c h =
    let want = chunk (n - length out) in
    elim (Outcome-cases (transact cmd_memrd (memrd_body (address addr (length out)) want) c)) [
      | inl (p, c1, e) ↦
          let got = cut want (resp_body p) in
          rw (e, read_loop)
            (ground (
              arith,
              length-cut want (resp_body p),
              length-append out got,
              read_loop-length fuel addr n (out ++ got) c1,
            ))
      | inr (x, c1, e) ↦ rw (e, read_loop) (ground arith)
    ]

-- The error that a read ends with is never the fuel's.
abbrev pub IsUnspent : {P : Type 0} {A B : Type 0} → Outcome (A × Error) (Client P) B → Type 0
IsUnspent (ok b c) = Unit
IsUnspent (err (b, e) c) = e ≢ spent

IsUnspent-if :
    {P A B : Type 0} (test : Bool) (a : A) {e : Error} (b : B) (c c' : Client P)
    → e ≢ spent
    → IsUnspent (if test then err (a, e) c else ok b c')
IsUnspent-if true a b c c' h = h
IsUnspent-if false a b c c' h = tt

transact-IsUnspent :
    {P : Type 0} (cmd : ℕ) (body : Bytes) (c : Client P) {x : Error} {c' : Client P}
    → transact cmd body c ≡ err x c'
    → x ≢ spent
transact-IsUnspent cmd body c {x} {c'} e q =
    transact-ne-spent cmd body c c' (e ∙ ap (λ t. err t c') q)

read_loop-IsUnspent :
    {P : Type 0} (fuel addr n : ℕ) (out : Bytes) (c : Client P)
    → length out ≤ n
    → n < length out + fuel
    → IsUnspent (read_loop fuel addr n out c)
unfolding read_loop
read_loop-IsUnspent zero addr n out c h f = absurd (omega arith)
read_loop-IsUnspent (suc fuel) addr n out c h f =
    let want = chunk (n - length out) in
    elim (Outcome-cases (transact cmd_memrd (memrd_body (address addr (length out)) want) c)) [
      | inl (p, c1, e) ↦
          let got = cut want (resp_body p) in
          rw (e, read_loop)
            (ground (
              arith,
              length-cut want (resp_body p),
              length-append out got,
              read_loop-IsUnspent fuel addr n (out ++ got) c1,
            ))
      | inr (x, c1, e) ↦
          rw (e, read_loop)
            (IsUnspent-if (ltb (length out) n) out out c1 c (transact-IsUnspent cmd_memrd _ c e))
    ]

-- The number of bytes that a write reports, also beside an error.
abbrev pub count_of : {P : Type 0} → WriteResult P → ℕ
count_of (ok n c) = n
count_of (err (n, e) c) = n

-- What `WriteMemory` reports: all of the data, or a count within it beside an error.
abbrev pub Reports : {P : Type 0} → ℕ → WriteResult P → Type 0
Reports len (ok n c) = n ≡ len
Reports len (err (n, e) c) = n ≤ len

write_loop-Reports :
    {P : Type 0} (fuel addr : ℕ) (bytes : Bytes) (total : ℕ) (c : Client P)
    → total ≤ length bytes
    → Reports (length bytes) (write_loop fuel addr bytes total c)
unfolding write_loop
write_loop-Reports zero addr bytes total c h = h
write_loop-Reports (suc fuel) addr bytes total c h =
    let stop = chunk_end total (length bytes) in
    let part = take (stop - total) (drop total bytes) in
    elim (Outcome-cases (transact cmd_memwr (memwr_body (address addr total) part) c)) [
      | inl (p, c1, e) ↦
          rw (e, write_loop) (ground (arith, write_loop-Reports fuel addr bytes stop c1))
      | inr (x, c1, e) ↦ rw (e, write_loop) (ground arith)
    ]

write_loop-IsUnspent :
    {P : Type 0} (fuel addr : ℕ) (bytes : Bytes) (total : ℕ) (c : Client P)
    → total ≤ length bytes
    → length bytes < total + fuel
    → IsUnspent (write_loop fuel addr bytes total c)
unfolding write_loop
write_loop-IsUnspent zero addr bytes total c h f = absurd (omega arith)
write_loop-IsUnspent (suc fuel) addr bytes total c h f =
    let stop = chunk_end total (length bytes) in
    let part = take (stop - total) (drop total bytes) in
    elim (Outcome-cases (transact cmd_memwr (memwr_body (address addr total) part) c)) [
      | inl (p, c1, e) ↦
          rw (e, write_loop) (ground (arith, write_loop-IsUnspent fuel addr bytes stop c1))
      | inr (x, c1, e) ↦
          rw (e, write_loop)
            (IsUnspent-if (ltb total (length bytes)) total total c1 c
              (transact-IsUnspent cmd_memwr _ c e))
    ]

-- `ReadMemory` ends, hands over at most `n` bytes on every outcome, whatever the target sends,
-- and its fuel is never what ends it.
pub read_memory_bounds :
    {P : Type 0} (addr n : ℕ) (c : Client P)
    → (length (bytes_of (read_memory addr n c)) ≤ n) × IsUnspent (read_memory addr n c)
unfolding read_memory
read_memory_bounds addr n c = (
  read_loop-length (suc n) addr n [] c (omega arith),
  read_loop-IsUnspent (suc n) addr n [] c (omega arith) (omega arith),
)

-- `WriteMemory` ends; without an error it reports the whole length of the data, and beside an
-- error a count within it, whatever the target answers; its fuel is never what ends it.
pub write_memory_bounds :
    {P : Type 0} (addr : ℕ) (bytes : Bytes) (c : Client P)
    → Reports (length bytes) (write_memory addr bytes c) × IsUnspent (write_memory addr bytes c)
unfolding write_memory
write_memory_bounds addr bytes c = (
  write_loop-Reports (suc (length bytes)) addr bytes 0 c (omega arith),
  write_loop-IsUnspent (suc (length bytes)) addr bytes 0 c (omega arith) (omega arith),
)
