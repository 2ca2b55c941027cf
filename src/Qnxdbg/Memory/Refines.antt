-- ===== src/Qnxdbg/Memory/Refines.antt =====
-- `ReadMemory` and `WriteMemory` against a target that keeps its promise: chunk by chunk they
-- read, and write, the whole range.
use qnx8_qconn_mcp.Prelude.{
  ℕ, zero, suc, ◌+◌, ◌-◌, ◌%◌, ◌^◌, ◌<◌, ◌≤◌, ◌≡◌, ◌≢◌, sym, ap, ◌∙◌, true, false, [], ◌++◌,
  append-nil, append_assoc, Bytes, ◌==◌, ltb, le→ltb, length, length-append, ok, arith, Bool-cases,
  inl, inr, ltb→lt, ltb→le, ne→==,
}
use qnx8_qconn_mcp.Qnxdbg.Client.{Client, transact, resp_code, resp_body}
use qnx8_qconn_mcp.Qnxdbg.Client.Exchange.{next_mid}
use qnx8_qconn_mcp.Qnxdbg.Commands.{resp_err}
use qnx8_qconn_mcp.Qnxdbg.Memory.{
  cmd_memrd, max_chunk, chunk, address, memrd_body, cut, read_loop, read_memory,
}
use qnx8_qconn_mcp.Qnxdbg.Target.{bytes_at, MemTarget, bytes_at-add, bytes_at-mod, length-bytes_at}
use qnx8_qconn_mcp.Qnxdbg.Target.Exchange.{IsIdle, exchange}

chunk-pos : (w : ℕ) → 0 < w → 0 < chunk w
chunk-pos w h = ground arith

chunk-le : (w : ℕ) → (chunk w ≤ w) × (chunk w ≤ max_chunk)
chunk-le w = ground arith

cut_whole : (k : ℕ) (b : Bytes) → length b ≤ k → cut k b ≡ b
cut_whole k b h = ground arith

-- A round that goes on, and the one that ends the loop.
read_loop_step :
    {P : Type 0} (fuel addr n : ℕ) (out : Bytes) (c : Client P) {p : Bytes} {c1 : Client P}
    (b : Bytes)
    → ltb (length out) n ≡ true
    → transact cmd_memrd (memrd_body (address addr (length out)) (chunk (n - length out))) c
      ≡ ok p c1
    → resp_code p ≢ resp_err
    → resp_body p ≡ b
    → length b ≡ chunk (n - length out)
    → read_loop (suc fuel) addr n out c ≡ read_loop fuel addr n (out ++ b) c1
unfolding read_loop
read_loop_step fuel addr n out c {p} b t e ne body len =
    let k = chunk (n - length out) in
    let accepted : (resp_code p == resp_err) ≡ false = ne→== _ _ ne in
    let some_data : (length (resp_body p) == 0) ≡ false =
      ne→== _ 0 (rw body (omega (arith, len, chunk-pos (n - length out), ltb→lt _ _ t))) in
    let whole : cut k (resp_body p) ≡ b = rw body (cut_whole k b (omega (arith, len))) in
    let full : ltb (length b) k ≡ false = le→ltb _ _ (omega (arith, len)) in
    rw (t, e, read_loop, accepted, some_data, whole, full)

read_loop_done :
    {P : Type 0} (fuel addr n : ℕ) (out : Bytes) (c : Client P)
    → ltb (length out) n ≡ false
    → read_loop (suc fuel) addr n out c ≡ ok out c
unfolding read_loop
read_loop_done fuel addr n out c h = rw (h, read_loop)

bytes_at-done :
    (m : ℕ → ℕ) (addr n : ℕ) (out : Bytes)
    → n ≤ length out
    → out ≡ out ++ bytes_at m (addr + length out) (n - length out)
unfolding bytes_at
bytes_at-done m addr n out h =
    let e : n - length out ≡ 0 = omega arith in rw e (sym (append-nil out))

-- A chunk and the rest make the whole.
bytes_at_split :
    (m : ℕ → ℕ) (addr n k : ℕ) (out : Bytes)
    → length out + k ≤ n
    → (out ++ bytes_at m (addr + length out) k)
        ++ bytes_at m
            (addr + length (out ++ bytes_at m (addr + length out) k))
            (n - length (out ++ bytes_at m (addr + length out) k))
      ≡ out ++ bytes_at m (addr + length out) (n - length out)
bytes_at_split m addr n k out h =
    let b = bytes_at m (addr + length out) k in
    let len : length (out ++ b) ≡ length out + k =
      omega (arith, length-append out b, length-bytes_at m (addr + length out) k) in
    let whole : n - length out ≡ k + (n - (length out + k)) = omega arith in
    let next : addr + (length out + k) ≡ addr + length out + k = omega arith in
    rw (len, append_assoc out b, next, whole, bytes_at-add m (addr + length out) k)

module _ {P : Type 0} {react : P → Bytes → P × Bytes} where
  -- A client that can be used again, whose target has the memory `m`.
  pub record IsUsable (t : MemTarget react) (m : ℕ → ℕ) (c : Client P) : Type 0 where
    pub idle : IsIdle react c
    pub ready : t.IsReady c.conn.peer
    pub mem_is : t.mem c.conn.peer ≡ m

  read_one :
      (t : MemTarget react) {m : ℕ → ℕ} (a size : ℕ) (c : Client P)
      → IsUsable t m c
      → 0 < size
      → size ≤ max_chunk
      → (p : Bytes) × (c1 : Client P) × (transact cmd_memrd (memrd_body (a % 2 ^ 64) size) c
          ≡ ok p c1)
        × (resp_code p ≢ resp_err)
        × (resp_body p ≡ bytes_at m a size)
        × IsUsable t m c1
  unfolding transact
  read_one t {m} a size c u pos fits =
      let (served, ready, same) =
        t.reads c.conn.peer (next_mid c) (a % 2 ^ 64) size u.ready (omega arith) (omega arith) pos
          fits in
      let x = exchange cmd_memrd 0 (memrd_body (a % 2 ^ 64) size) c u.idle served in
      (
        x.p,
        x.client,
        x.returned,
        x.accepted,
        rw (x.body_is, u.mem_is) (bytes_at-mod m a size),
        record {
          idle = x.idle;
          ready = rw x.peer_is ready;
          mem_is = rw x.peer_is (same ∙ u.mem_is);
        },
      )

  read_loop_serves :
      (t : MemTarget react) {m : ℕ → ℕ} (fuel addr n : ℕ) (out : Bytes) (c : Client P)
      → IsUsable t m c
      → length out ≤ n
      → n < length out + fuel
      → (c' : Client P) × (read_loop fuel addr n out c
          ≡ ok (out ++ bytes_at m (addr + length out) (n - length out)) c')
        × IsUsable t m c'
  read_loop_serves t zero addr n out c u h f = absurd (omega arith)
  read_loop_serves t {m} (suc fuel) addr n out c u h f = elim (Bool-cases (ltb (length out) n)) [
    | inr done ↦ (
      c,
      read_loop_done fuel addr n out c done
          ∙ ap (λ b. ok b c) (bytes_at-done m addr n out (ltb→le _ _ done)),
      u,
    )
    | inl more ↦
        let small = ltb→lt _ _ more in
        let w = n - length out in
        let k = chunk w in
        let pos = chunk-pos w (omega (arith, small)) in
        let (p, c1, e, fine, body, u1) = read_one t (addr + length out) k c u pos (chunk-le w).1 in
        let b = bytes_at m (addr + length out) k in
        let len : length (out ++ b) ≡ length out + k =
          omega (arith, length-append out b, length-bytes_at m (addr + length out) k) in
        let (c', rest, u') =
          read_loop_serves t fuel addr n (out ++ b) c1 u1
            (omega (arith, len, (chunk-le w).0, small)) (omega (arith, len, pos)) in
        (
          c',
          read_loop_step fuel addr n out c b more e fine body (length-bytes_at m _ k)
              ∙ rest
              ∙ ap (λ x. ok x c')
                  (bytes_at_split m addr n k out (omega (arith, (chunk-le w).0, small))),
          u',
        )
  ]

  -- `ReadMemory` returns exactly the range that was asked for, of any length.
  pub read_memory_reads :
      (t : MemTarget react) {m : ℕ → ℕ} (addr n : ℕ) (c : Client P)
      → IsUsable t m c
      → (c' : Client P) × (read_memory addr n c ≡ ok (bytes_at m addr n) c') × IsUsable t m c'
  unfolding read_memory
  read_memory_reads t {m} addr n c u =
      let (c', e, u') = read_loop_serves t (suc n) addr n [] c u (omega arith) (omega arith) in
      let at_start : addr + 0 ≡ addr = omega arith in
      let whole : n - 0 ≡ n = omega arith in (c', rw (at_start, whole) at e, u')
