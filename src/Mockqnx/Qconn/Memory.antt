-- ===== src/Mockqnx/Qconn/Memory.antt =====
-- The memory of a process of the mock, as the client reads it: `ReadMemory`.
use qnx8_qconn_mcp.Prelude.{
  ℕ, zero, suc, ◌+◌, ◌-◌, ◌/◌, ◌%◌, ◌^◌, ◌≤◌, ◌<◌, ◌≡◌, refl, ap, ◌∙◌, Bool, true, false, ◌||◌, inl,
  inr, Bool-cases, [], ◌∷◌, ◌++◌, some, Bytes, ◌==◌, ltb, length, All, All-append, codes,
  has_prefix, same, signed, digits_onto, to_decimal, ltb→lt, ltb→le, ok, pos, ◌>>=◌, arith,
}
use qnx8_qconn_mcp.Qconn.Client.{Client, on_frame, file}
use qnx8_qconn_mcp.Qconn.Cntl.{read_memory}
use qnx8_qconn_mcp.Qconn.File.{read_chunk, read_at, open_file, o_rdonly}
use qnx8_qconn_mcp.Qconn.Transfer.{open_in, range_rounds, read_file_range}
use qnx8_qconn_mcp.Qnxdbg.Target.{bytes_at}
use qnx8_qconn_mcp.Mockqnx.Qconn.{
  Session, entry, ends_in_as, find_fd, opened_session, proc_bytes, read_vfile,
}
use qnx8_qconn_mcp.Mockqnx.Qconn.Serve.{Daemon}
use qnx8_qconn_mcp.Mockqnx.Qconn.Requests.{IsPathByte}
use qnx8_qconn_mcp.Mockqnx.Qconn.Answers.{handle}
use qnx8_qconn_mcp.Mockqnx.Qconn.Calls.{
  IsClient, Calls, on_frame-Frames, open_file_lem, ensure_file,
}
use qnx8_qconn_mcp.Mockqnx.Qconn.Chunks.{read_at-read_vfile}
use qnx8_qconn_mcp.Mockqnx.Qconn.Opened.{deferring-Calls}
use qnx8_qconn_mcp.Mockqnx.Qconn.Ranges.{read_chunk-le, read_chunk_pos, range_round}

digits_onto-IsPathByte :
    (fuel m : ℕ) (out : Bytes) → All IsPathByte out → All IsPathByte (digits_onto fuel m out)
unfolding digits_onto
digits_onto-IsPathByte zero m out h = h
digits_onto-IsPathByte (suc fuel) m out h = elim (Bool-cases (ltb m 10)) [
  | inl e ↦ rw e (ground (arith, ltb→lt m 10 e), h)
  | inr e ↦ rw e (digits_onto-IsPathByte fuel (m / 10) _ (omega arith, h))
]

-- The node of a process, as Go's `/proc/%d/as` prints it.
abbrev pub node_path : ℕ → Bytes
node_path pid = codes "/proc/" ++ (to_decimal pid ++ codes "/as")

node_path-IsPathByte : (pid : ℕ) → All IsPathByte (node_path pid)
unfolding to_decimal
node_path-IsPathByte pid = All-append IsPathByte (codes "/proc/") _ (omega arith) (
    All-append IsPathByte (to_decimal pid) (codes "/as")
      (digits_onto-IsPathByte (suc pid) pid [] tt) (omega arith))

or_true : (b : Bool) → (b || true) ≡ true
or_true true = refl
or_true false = refl

ends_in_as-append : (s : Bytes) → ends_in_as (s ++ codes "/as") ≡ true
unfolding ends_in_as same
ends_in_as-append [] = refl
ends_in_as-append (c ∷ s) = rw (ends_in_as-append s) (or_true _)

-- The mock with the memory of a process open.
abbrev pub with_memory : ℕ → Session → Session
with_memory pid s = record s {
  fds = (s.nfd + 3, record { path = node_path pid; is_proc = true }) ∷ s.fds;
  nfd = s.nfd + 1;
}

entry-memory :
    (pid : ℕ) (s : Session)
    → (opened_session (node_path pid) (entry (node_path pid) s) s ≡ with_memory pid s)
      × ((entry (node_path pid) s).size ≡ 0x7fffffff)
unfolding entry has_prefix
entry-memory pid s =
    let end_ : ends_in_as (node_path pid) ≡ true =
      ends_in_as-append (codes "/proc/" ++ to_decimal pid) in
    (rw end_, rw end_)

length-proc_bytes : (off m : ℕ) → length (proc_bytes off m) ≡ m
unfolding proc_bytes
length-proc_bytes off zero = refl
length-proc_bytes off (suc m) = ap suc (length-proc_bytes (off + 1) m)

proc_bytes-append :
    (off i m : ℕ) → proc_bytes off i ++ proc_bytes (off + i) m ≡ proc_bytes off (i + m)
unfolding proc_bytes
proc_bytes-append off zero m =
    let at : off + 0 ≡ off = omega arith in let all_ : 0 + m ≡ m = omega arith in rw (at, all_) refl
proc_bytes-append off (suc i) m =
    let at : off + suc i ≡ off + 1 + i = omega arith in
    let all_ : suc i + m ≡ suc (i + m) = omega arith in
    rw (at, all_) (ap (◌∷◌ (off % 256)) (proc_bytes-append (off + 1) i m))

-- What the mock shows is a memory that holds at each address its last byte.
proc_bytes-bytes_at :
    (addr m : ℕ) → addr + m < 2 ^ 63 → proc_bytes addr m ≡ bytes_at (λ a. a % 256) addr m
unfolding proc_bytes bytes_at
proc_bytes-bytes_at addr zero h = refl
proc_bytes-bytes_at addr (suc m) h =
    let at : addr % 2 ^ 64 ≡ addr = omega arith in
    rw at (ap (◌∷◌ (addr % 256)) (proc_bytes-bytes_at (addr + 1) m (omega arith)))

module _ (n fd : ℕ) (path : Bytes) (s : Session)
    (found : find_fd fd s.fds ≡ some (record { path = path; is_proc = true }))
    (number : fd < 2 ^ 63) (rounds : 128 ≤ n) where
  chunk_shown :
      (off want : ℕ) (cl : Client Daemon)
      → IsClient n file s cl
      → off + read_chunk want < 2 ^ 63
      → Calls n file s (proc_bytes off (read_chunk want)) (on_frame (read_at (pos fd) off want) cl)
  unfolding read_vfile
  chunk_shown off want cl h small =
      let got = proc_bytes off (read_chunk want) in
      let part : read_vfile fd off (read_chunk want) s ≡ some got = rw (found, read_vfile) refl in
      let size : length got < 2 ^ 63 = omega (arith, length-proc_bytes off (read_chunk want)) in
      on_frame-Frames n file s s got (read_at (pos fd) off want) cl h h.agreed (
        read_at-read_vfile n fd off want got s cl.fc h.linked rounds h.agreed number (omega arith)
          (omega arith) size part)

  -- The loop over a range of the memory, of which `i` bytes are read.
  memory_rounds :
      (k off m i : ℕ) (cl : Client Daemon)
      → IsClient n file s cl
      → off + m < 2 ^ 63
      → i ≤ m
      → m < k + i
      → Calls n file s (proc_bytes off m) (range_rounds k (pos fd) off m (proc_bytes off i) cl)
  memory_rounds zero off m i cl h small le enough = absurd (omega arith)
  memory_rounds (suc k) off m i cl h small le enough =
      let so_far = length-proc_bytes off i in
      elim (Bool-cases (ltb i m)) [
        | inr e ↦
            let done : i ≡ m = omega (arith, ltb→le i m e) in
            record {
              left = cl;
              returned =
                  unfold range_rounds in (rw (so_far, e) (ap (λ j. ok (proc_bytes off j) cl) done));
              client = h;
            }
        | inl e ↦
            let asked = read_chunk (m - i) in
            let want = read_chunk asked in
            let least : want ≤ m - i = omega (arith, read_chunk-le (m - i), read_chunk-le asked) in
            let some_ : 0 < want =
              read_chunk_pos asked (read_chunk_pos (m - i) (omega (arith, ltb→lt i m e))) in
            let call = chunk_shown (off + i) asked cl h (omega arith) in
            let chunk = proc_bytes (off + i) want in
            let size = length-proc_bytes (off + i) want in
            let goes_on : (length chunk == 0) ≡ false = ground (arith, size, some_) in
            let rest =
              memory_rounds k off m (i + want) call.left call.client small (omega arith)
                (omega arith) in
            let later = λ (t : Bytes). range_rounds k (pos fd) off m t call.left in
            record {
              left = rest.left;
              returned =
                  range_round fd k off m i (proc_bytes off i) chunk cl call.left so_far
                    (omega arith) e call.returned
                  ∙ rw goes_on (ap later (proc_bytes-append off i want) ∙ rest.returned);
              client = rest.client;
            }
      ]

with_memory-found :
    (pid : ℕ) (s : Session)
    → find_fd (s.nfd + 3) (with_memory pid s).fds
      ≡ some (record { path = node_path pid; is_proc = true })
unfolding find_fd
with_memory-found pid s = ground arith

-- The memory of a process is opened.
open_in-memory :
    (n flags pid : ℕ) (s : Session) (cl : Client Daemon)
    → IsClient n file s cl
    → flags < 2 ^ 63
    → s.nfd + 3 < 2 ^ 63
    → length (node_path pid) + 128 ≤ n
    → Calls n file
        (with_memory pid s)
        (handle (s.nfd + 3) 0x7fffffff (node_path pid))
        (open_in (node_path pid) flags 0 cl)
unfolding open_in
open_in-memory n flags pid s cl h hf number fits =
    let path = node_path pid in
    let (opened, size) = entry-memory pid s in
    let small : (entry path s).size < 2 ^ 63 = rw size (omega arith) in
    let rest = codes "proc/" ++ (to_decimal pid ++ codes "/as") in
    let call : Calls n file (opened_session path (entry path s) s)
        (handle (s.nfd + 3) ((entry path s).size) path) (open_file path flags 0 cl) =
      open_file_lem n s cl h b'/' rest flags 0 (node_path-IsPathByte pid) hf (omega arith) number
        small (omega arith) in
    let entered = ensure_file n s cl h in rw (entered, ◌>>=◌) (rw (opened, size) at call)

-- Against the mock, ReadMemory of a process returns the bytes of a memory that holds at each address
-- the last byte of the address, all of them, however many chunks that takes, and leaves client and
-- daemon ready for the next call, the daemon's files as they were; for a process id that is not
-- negative, a range and a file number below 2^63, a client in the file service, and a connection
-- whose loops may take 128 rounds more than the node's path has bytes.
pub read_memory-bytes_at :
    (n pid addr m : ℕ) (s : Session) (cl : Client Daemon)
    → IsClient n file s cl
    → s.nfd + 3 < 2 ^ 63
    → length (node_path pid) + 128 ≤ n
    → addr + m < 2 ^ 63
    → Calls n file
        (with_memory pid s)
        (bytes_at (λ a. a % 256) addr m)
        (read_memory (pos pid) addr m cl)
unfolding read_memory read_file_range proc_bytes signed
read_memory-bytes_at n pid addr m s cl h number fits small =
    let fd = s.nfd + 3 in
    let s' = with_memory pid s in
    let call = open_in-memory n o_rdonly pid s cl h (omega arith) number fits in
    let rounds : 128 ≤ n = omega arith in
    let read =
      memory_rounds n fd (node_path pid) s' (with_memory-found pid s) number rounds (suc m) addr m 0
        call.left call.client small (omega arith) (omega arith) in
    let closed =
      deferring-Calls n fd s' (proc_bytes addr m)
        (range_rounds (suc m) (pos fd) addr m (proc_bytes addr 0) call.left) rounds read in
    record {
      left = closed.left;
      returned =
          rw (call.returned, read_file_range) closed.returned
          ∙ ap (λ b. ok b closed.left) (proc_bytes-bytes_at addr m small);
      client = closed.client;
    }
