-- ===== src/Tests/Ram.antt =====
-- A target whose memory is a function, and the witnesses that need one which keeps what is written.
use qnx8_qconn_mcp.Prelude.{
  ℕ, zero, suc, ◌+◌, ◌%◌, ◌^◌, ◌<◌, ◌≡◌, refl, ◌∙◌, [], ◌∷◌, ◌++◌, append-nil, Bytes, IsByte,
  AreBytes, All-append, Option, some, ◌==◌, if◌then◌else◌, length, drop, u16, u64, ok, arith,
  replicate,
}
use qnx8_qconn_mcp.Wire.{eof}
use qnx8_qconn_mcp.Qnxdbg.Protocol.{frame}
use qnx8_qconn_mcp.Qnxdbg.Client.{Client, header, le16, le64}
use qnx8_qconn_mcp.Qnxdbg.Client.Codec.{u16-le16, u64-le64, le64-AreBytes}
use qnx8_qconn_mcp.Qnxdbg.Memory.{
  cmd_memrd, cmd_memwr, memrd_body, memwr_body, read_memory, write_memory,
}
use qnx8_qconn_mcp.Qnxdbg.Memory.Refines.{IsUsable}
use qnx8_qconn_mcp.Qnxdbg.Memory.Writes.{write_memory_stores, read_memory-write_memory}
use qnx8_qconn_mcp.Qnxdbg.Target.{bytes_at, update, store, RamTarget}
use qnx8_qconn_mcp.Mockqnx.Dsmsg.{next_frame}
use qnx8_qconn_mcp.Mockqnx.Dsmsg.Interop.{next_frame-frame}

abbrev Memory : Type 0
Memory = ℕ → ℕ

serve : ℕ → ℕ → Bytes → Memory → Memory × Bytes
serve cmd mid body m =
    if cmd == cmd_memrd
    then (m, frame (0x23 ∷ 0 ∷ mid ∷ 1 ∷ bytes_at m (u64 (drop 4 body)) (u16 (drop 12 body))))
    else (store m (u64 (drop 4 body)) (drop 12 body), frame (0x21 ∷ 0 ∷ mid ∷ 1 ∷ []))

answer : Option (Bytes × Bytes) → Memory → Memory × Bytes
answer (some (cmd ∷ (sub ∷ (mid ∷ (ch ∷ body))), rest)) m = serve cmd mid body m
answer _ m = (m, [])

ram : Memory → Bytes → Memory × Bytes
ram m bytes = answer (next_frame bytes) m

ram-frame :
    (m : Memory) (mid cmd sub : ℕ) (body : Bytes)
    → AreBytes (header mid cmd sub body)
    → ram m (frame (header mid cmd sub body)) ≡ serve cmd mid body m
unfolding ram answer
ram-frame m mid cmd sub body h =
    let e = rw append-nil at (next_frame-frame (header mid cmd sub body) [] h) in rw (e, answer)

abbrev AllBytes : Memory → Type 0
AllBytes m = (a : ℕ) → IsByte (m a)

bytes_at-AreBytes : (m : Memory) (addr n : ℕ) → AllBytes m → AreBytes (bytes_at m addr n)
unfolding bytes_at
bytes_at-AreBytes m addr zero h = tt
bytes_at-AreBytes m addr (suc n) h = (h (addr % 2 ^ 64), bytes_at-AreBytes m (addr + 1) n h)

update-AllBytes : (m : Memory) (a b : ℕ) → AllBytes m → IsByte b → AllBytes (update m a b)
update-AllBytes m a b h hb x = ground (arith, h x)

store-AllBytes :
    (m : Memory) (addr : ℕ) (bytes : Bytes)
    → AllBytes m
    → AreBytes bytes
    → AllBytes (store m addr bytes)
unfolding store
store-AllBytes m addr [] h hb = h
store-AllBytes m addr (b ∷ bytes) h hb =
    store-AllBytes (update m (addr % 2 ^ 64) b) (addr + 1) bytes
      (update-AllBytes m (addr % 2 ^ 64) b h hb.0) hb.1

ram_reads :
    (m : Memory) (mid addr size : ℕ)
    → mid < 256
    → addr < 2 ^ 64
    → size < 2 ^ 16
    → ram m (frame (header mid cmd_memrd 0 (memrd_body addr size)))
      ≡ (m, frame (0x23 ∷ 0 ∷ mid ∷ 1 ∷ bytes_at m addr size))
unfolding serve
ram_reads m mid addr size k l s =
    ram-frame m mid cmd_memrd 0 (memrd_body addr size) (omega arith)
    ∙ rw (u64-le64 addr (le16 size ++ replicate 6 0) l, u16-le16 size (replicate 6 0) s)

ram_writes :
    (m : Memory) (mid addr : ℕ) (bytes : Bytes)
    → mid < 256
    → addr < 2 ^ 64
    → AreBytes bytes
    → ram m (frame (header mid cmd_memwr 0 (memwr_body addr bytes)))
      ≡ (store m addr bytes, frame (0x21 ∷ 0 ∷ mid ∷ 1 ∷ []))
unfolding serve
ram_writes m mid addr bytes k l hb =
    ram-frame m mid cmd_memwr 0 (memwr_body addr bytes)
      (omega arith, (omega arith, (k, (omega arith, body))))
    ∙ rw (u64-le64 addr bytes l)
  where
    body : AreBytes (memwr_body addr bytes)
    body =
        All-append IsByte (replicate 4 0) (le64 addr ++ bytes) (omega arith)
          (All-append IsByte (le64 addr) bytes (le64-AreBytes addr) hb)

abbrev ram_target : RamTarget ram
ram_target = record {
  target = record {
    IsReady = AllBytes;
    mem = λ m. m;
    reads = λ m mid addr size h k l pos fits. (
      record {
        next = m;
        before = [];
        code = 0x23;
        sub = 0;
        mid = mid;
        channel_id = 1;
        reacts = ram_reads m mid addr size k l (omega arith);
        passed = tt;
        bytes = (omega arith, (omega arith, (k, (omega arith, bytes_at-AreBytes m addr size h))));
        no_error = omega arith;
        no_text = omega arith;
      },
      h,
      refl,
    );
  };
  writes = λ m mid addr bytes h k l hb fits. (
    [],
    record {
      next = store m addr bytes;
      before = [];
      code = 0x21;
      sub = 0;
      mid = mid;
      channel_id = 1;
      reacts = ram_writes m mid addr bytes k l hb;
      passed = tt;
      bytes = (omega arith, (omega arith, (k, (omega arith, tt))));
      no_error = omega arith;
      no_text = omega arith;
    },
    store-AllBytes m addr bytes h hb,
    refl,
  );
}

-- A client of that target, whose memory is zero.
abbrev zeroed : Memory
zeroed a = 0

abbrev ram_client : Client Memory
ram_client = record {
  conn = record { react = ram; peer = zeroed; input = []; sent = []; faults = []; ending = eof };
  mid = 1;
  output = [];
}

ram_client-IsUsable : IsUsable ram_target.target zeroed ram_client
ram_client-IsUsable = record {
  idle = record { quiet = refl; no_faults = refl; reacts = refl };
  ready = λ a. omega arith;
  mem_is = refl;
}

-- Three chunks of bytes that need escaping.
abbrev pattern_bytes : Bytes
pattern_bytes = replicate 2500 0x7e

pattern-AreBytes : (n : ℕ) → AreBytes (replicate n 0x7e)
pattern-AreBytes zero = tt
pattern-AreBytes (suc n) = (omega arith, pattern-AreBytes n)

write_memory_stores_example :
    (c' : Client Memory) × (write_memory 0x1000 pattern_bytes ram_client
      ≡ ok (length pattern_bytes) c')
    × IsUsable ram_target.target (store zeroed 0x1000 pattern_bytes) c'
write_memory_stores_example =
    write_memory_stores ram_target 0x1000 pattern_bytes ram_client ram_client-IsUsable
      (pattern-AreBytes 2500)

read_memory-write_memory_example :
    (c' : Client Memory) × (c'' : Client Memory) × (write_memory 0x1000 pattern_bytes ram_client
      ≡ ok (length pattern_bytes) c')
    × (read_memory 0x1000 (length pattern_bytes) c' ≡ ok pattern_bytes c'')
read_memory-write_memory_example =
    read_memory-write_memory ram_target 0x1000 pattern_bytes ram_client ram_client-IsUsable
      (pattern-AreBytes 2500) (omega arith)
