-- ===== src/Qnxdbg/Memory/Writes.antt =====
-- `WriteMemory` against a target that keeps what is written.
use qnx8_qconn_mcp.Prelude.{
  ℕ, zero, suc, ◌+◌, ◌-◌, ◌^◌, ◌<◌, ◌≤◌, ◌≡◌, ◌≢◌, sym, ap, ◌∙◌, true, false, Bytes, IsByte,
  AreBytes, All-take, All-drop, ltb, length, length-take, take, drop, take-add, take-length, ok,
  arith, Bool-cases, inl, inr, ltb→lt, ltb→le, ne→==,
}
use qnx8_qconn_mcp.Qnxdbg.Client.{Client, transact, resp_code}
use qnx8_qconn_mcp.Qnxdbg.Client.Exchange.{next_mid}
use qnx8_qconn_mcp.Qnxdbg.Commands.{resp_err}
use qnx8_qconn_mcp.Qnxdbg.Memory.{
  cmd_memwr, max_chunk, address, memwr_body, read_memory, chunk_end, write_loop, write_memory,
}
use qnx8_qconn_mcp.Qnxdbg.Target.{store, RamTarget, store-mod, store-append, bytes_at-store}
use qnx8_qconn_mcp.Qnxdbg.Target.Exchange.{exchange}
use qnx8_qconn_mcp.Qnxdbg.Memory.Refines.{IsUsable, read_memory_reads}

chunk_end_bounds :
    (total len : ℕ)
    → total < len
    → (total < chunk_end total len)
      × (chunk_end total len ≤ len)
      × (chunk_end total len - total ≤ max_chunk)
chunk_end_bounds total len h = ground arith

-- What one round sends.
abbrev part_of : Bytes → ℕ → Bytes
part_of bytes total = take (chunk_end total (length bytes) - total) (drop total bytes)

write_loop_step :
    {P : Type 0} (fuel addr : ℕ) (bytes : Bytes) (total : ℕ) (c : Client P) {p : Bytes}
    {c1 : Client P}
    → ltb total (length bytes) ≡ true
    → transact cmd_memwr (memwr_body (address addr total) (part_of bytes total)) c ≡ ok p c1
    → resp_code p ≢ resp_err
    → write_loop (suc fuel) addr bytes total c
      ≡ write_loop fuel addr bytes (chunk_end total (length bytes)) c1
unfolding write_loop
write_loop_step fuel addr bytes total c t e ne = rw (t, e, write_loop, ne→== _ _ ne)

write_loop_done :
    {P : Type 0} (fuel addr : ℕ) (bytes : Bytes) (total : ℕ) (c : Client P)
    → ltb total (length bytes) ≡ false
    → write_loop (suc fuel) addr bytes total c ≡ ok total c
unfolding write_loop
write_loop_done fuel addr bytes total c h = rw (h, write_loop)

-- The parts sent so far and the next one.
store_parts :
    (m : ℕ → ℕ) (addr : ℕ) (bytes : Bytes) (total : ℕ)
    → total < length bytes
    → store (store m addr (take total bytes)) (address addr total) (part_of bytes total)
      ≡ store m addr (take (chunk_end total (length bytes)) bytes)
store_parts m addr bytes total h =
    let stop = chunk_end total (length bytes) in
    let b = chunk_end_bounds total (length bytes) h in
    let len : length (take total bytes) ≡ total = omega (arith, length-take total bytes) in
    let e : total + (stop - total) ≡ stop = omega (arith, b.0) in
    store-mod _ (addr + total) _
    ∙ (rw len at (sym (store-append m addr (take total bytes) (part_of bytes total))))
    ∙ ap (store m addr) (take-add total (stop - total) bytes ∙ rw e)

module _ {P : Type 0} {react : P → Bytes → P × Bytes} where
  write_one :
      (t : RamTarget react) {m : ℕ → ℕ} (addr : ℕ) (part : Bytes) (c : Client P)
      → IsUsable t.target m c
      → AreBytes part
      → length part ≤ max_chunk
      → addr < 2 ^ 64
      → (p : Bytes) × (c1 : Client P) × (transact cmd_memwr (memwr_body addr part) c ≡ ok p c1)
        × (resp_code p ≢ resp_err)
        × IsUsable t.target (store m addr part) c1
  unfolding transact
  write_one t {m} addr part c u bytes fits low =
      let (body, served, ready, kept) =
        t.writes c.conn.peer (next_mid c) addr part u.ready (omega arith) low bytes fits in
      let x = exchange cmd_memwr 0 (memwr_body addr part) c u.idle served in
      (
        x.p,
        x.client,
        x.returned,
        x.accepted,
        record {
          idle = x.idle;
          ready = rw x.peer_is ready;
          mem_is = rw x.peer_is (kept ∙ ap (λ k. store k addr part) u.mem_is);
        },
      )

  write_loop_stores :
      (t : RamTarget react) (m : ℕ → ℕ) (fuel addr : ℕ) (bytes : Bytes) (total : ℕ) (c : Client P)
      → IsUsable t.target (store m addr (take total bytes)) c
      → AreBytes bytes
      → total ≤ length bytes
      → length bytes < total + fuel
      → (c' : Client P) × (write_loop fuel addr bytes total c ≡ ok (length bytes) c')
        × IsUsable t.target (store m addr bytes) c'
  write_loop_stores t m zero addr bytes total c u hb h f = absurd (omega arith)
  write_loop_stores t m (suc fuel) addr bytes total c u hb h f =
      elim (Bool-cases (ltb total (length bytes))) [
        | inr done ↦ (
          c,
          write_loop_done fuel addr bytes total c done
              ∙ ap (λ n. ok n c) (omega (arith, ltb→le _ _ done)),
          rw (take-length total bytes (ltb→le _ _ done)) at u,
        )
        | inl more ↦
            let small = ltb→lt _ _ more in
            let b = chunk_end_bounds total (length bytes) small in
            let stop = chunk_end total (length bytes) in
            let part = part_of bytes total in
            let (p, c1, e, fine, u1) =
              write_one t (address addr total) part c u
                (All-take IsByte (stop - total) _ (All-drop IsByte total bytes hb))
                (omega (arith, length-take (stop - total) (drop total bytes), b.2)) (omega arith) in
            let u2 = rw (store_parts m addr bytes total small) at u1 in
            let (c', rest, u') =
              write_loop_stores t m fuel addr bytes stop c1 u2 hb b.1 (omega (arith, b.0, f)) in
            (c', write_loop_step fuel addr bytes total c more e fine ∙ rest, u')
      ]

  -- `WriteMemory` stores all of the data at its address, in data of any length.
  pub write_memory_stores :
      (t : RamTarget react) {m : ℕ → ℕ} (addr : ℕ) (bytes : Bytes) (c : Client P)
      → IsUsable t.target m c
      → AreBytes bytes
      → (c' : Client P) × (write_memory addr bytes c ≡ ok (length bytes) c')
        × IsUsable t.target (store m addr bytes) c'
  unfolding write_memory store
  write_memory_stores t {m} addr bytes c u hb =
      write_loop_stores t m (suc (length bytes)) addr bytes 0 c u hb (omega arith) (omega arith)

  -- What `WriteMemory` has written, `ReadMemory` of that range returns.
  pub read_memory-write_memory :
      (t : RamTarget react) {m : ℕ → ℕ} (addr : ℕ) (bytes : Bytes) (c : Client P)
      → IsUsable t.target m c
      → AreBytes bytes
      → length bytes ≤ 2 ^ 64
      → (c' : Client P) × (c'' : Client P) × (write_memory addr bytes c ≡ ok (length bytes) c')
        × (read_memory addr (length bytes) c' ≡ ok bytes c'')
  read_memory-write_memory t {m} addr bytes c u hb fits =
      let (c', wrote, u') = write_memory_stores t addr bytes c u hb in
      let (c'', read, u'') = read_memory_reads t.target addr (length bytes) c' u' in
      (c', c'', wrote, rw (bytes_at-store m addr bytes fits) at read)
