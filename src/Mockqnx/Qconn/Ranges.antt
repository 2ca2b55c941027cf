-- ===== src/Mockqnx/Qconn/Ranges.antt =====
-- A range of a file of the mock, read by the client: `ReadFileRange`.
use qnx8_qconn_mcp.Prelude.{
  ℕ, zero, suc, ◌+◌, ◌-◌, ◌%◌, ◌^◌, ◌≤◌, ◌<◌, ◌≡◌, sym, ap, ◌∙◌, true, inl, inr, Bool-cases, [],
  ◌++◌, Bytes, ◌==◌, if◌then◌else◌, ltb, length, length-take, length-drop, take, drop, take-add,
  take-length, take-length-take, drop-drop, ltb→lt, ltb→le, ok, pos, arith,
}
use qnx8_qconn_mcp.Qconn.Client.{Client, on_frame, file}
use qnx8_qconn_mcp.Qconn.File.{read_chunk, read_at, o_rdonly}
use qnx8_qconn_mcp.Qconn.Transfer.{range_rounds, read_file_range}
use qnx8_qconn_mcp.Mockqnx.Qconn.{Session, contents}
use qnx8_qconn_mcp.Mockqnx.Qconn.Serve.{Daemon}
use qnx8_qconn_mcp.Mockqnx.Qconn.Calls.{IsClient, Calls}
use qnx8_qconn_mcp.Mockqnx.Qconn.Opened.{
  with_open, IsPlainFile, deferring-Calls, open_in-IsPlainFile, IsOpen, with_open-IsOpen,
}
use qnx8_qconn_mcp.Mockqnx.Qconn.Reads.{zero_of, pos_of, chunk_read, length-chunk}

pub read_chunk-le : (m : ℕ) → read_chunk m ≤ m
read_chunk-le m = ground arith

pub read_chunk_pos : (m : ℕ) → 0 < m → 0 < read_chunk m
read_chunk_pos m h = ground arith

-- One round of the loop over a range.
pub range_round :
    (fd k off m i : ℕ) (out chunk : Bytes) (cl left : Client Daemon)
    → length out ≡ i
    → off + i < 2 ^ 64
    → ltb i m ≡ true
    → on_frame (read_at (pos fd) (off + i) (read_chunk (m - i))) cl ≡ ok chunk left
    → range_rounds (suc k) (pos fd) off m out cl ≡ (
        if length chunk == 0
        then ok out left
        else range_rounds k (pos fd) off m (out ++ chunk) left)
unfolding range_rounds
range_round fd k off m i out chunk cl left so_far small e r =
    let at : (off + i) % 2 ^ 64 ≡ off + i = omega arith in rw (so_far, e, at) (rw (r, range_rounds))

module _ (n fd : ℕ) (bytes : Bytes) (s : Session) (o : IsOpen fd bytes s) (rounds : 128 ≤ n) where
  -- The bytes read, with a chunk behind them.
  range_read :
      (off want i : ℕ)
      → take i (drop off bytes) ++ take want (drop (off + i) bytes)
        ≡ take (i + length (take want (drop (off + i) bytes))) (drop off bytes)
  range_read off want i =
      let bs = drop off bytes in
      let there = ap (take want) (sym (drop-drop off i bytes)) in
      ap (λ t. take i bs ++ t) (there ∙ sym (take-length-take want (drop i bs)))
      ∙ take-add i (length (take want (drop i bs))) bs
      ∙ ap (λ t. take (i + length t) bs) (sym there)

  -- The loop over a range of the file, of which `i` bytes are read.
  pub range_rounds_lem :
      (k off m i : ℕ) (cl : Client Daemon)
      → IsClient n file s cl
      → off + m < 2 ^ 63
      → i ≤ m
      → i ≤ length bytes - off
      → m < k + i
      → Calls n file s
          (take m (drop off bytes))
          (range_rounds k (pos fd) off m (take i (drop off bytes)) cl)
  range_rounds_lem zero off m i cl h small le within enough = absurd (omega arith)
  range_rounds_lem (suc k) off m i cl h small le within enough =
      let bs = drop off bytes in
      let so_far : length (take i bs) ≡ i =
        omega (arith, length-take i bs, length-drop off bytes) in
      elim (Bool-cases (ltb i m)) [
        | inr e ↦
            let done : i ≡ m = omega (arith, ltb→le i m e) in
            record {
              left = cl;
              returned = unfold range_rounds in (rw (so_far, e) (ap (λ j. ok (take j bs) cl) done));
              client = h;
            }
        | inl e ↦
            let asked = read_chunk (m - i) in
            let want = read_chunk asked in
            let least : want ≤ m - i = omega (arith, read_chunk-le (m - i), read_chunk-le asked) in
            let call = chunk_read n fd bytes s o rounds (off + i) asked cl h (omega arith) in
            let chunk = take want (drop (off + i) bytes) in
            let size = length-chunk n fd bytes s o rounds want (off + i) in
            let round =
              range_round fd k off m i (take i bs) chunk cl call.left so_far (omega arith) e
                call.returned in
            elim (Bool-cases (length chunk == 0)) [
              | inl z ↦
                  let none_ = zero_of (length chunk) z in
                  let wanted =
                    read_chunk_pos asked (read_chunk_pos (m - i) (omega (arith, ltb→lt i m e))) in
                  let end_ : length bs ≤ i = omega (arith, size, length-drop off bytes) in
                  let whole : take i bs ≡ take m bs =
                    take-length i bs end_ ∙ sym (take-length m bs (omega arith)) in
                  record {
                    left = call.left;
                    returned = round ∙ rw z (ap (λ t. ok t call.left) whole);
                    client = call.client;
                  }
              | inr z ↦
                  let some_ = pos_of (length chunk) z in
                  let rest =
                    range_rounds_lem k off m (i + length chunk) call.left call.client small
                      (omega (arith, size, least)) (omega (arith, size)) (omega arith) in
                  let later = λ (t : Bytes). range_rounds k (pos fd) off m t call.left in
                  record {
                    left = rest.left;
                    returned = round ∙ rw z (ap later (range_read off want i) ∙ rest.returned);
                    client = rest.client;
                  }
            ]
      ]

-- Against the mock, ReadFileRange of a path outside /proc/ returns exactly the bytes of the daemon's
-- file in that range, fewer where the file ends, and none behind its end, and leaves client and daemon
-- ready for the next call, the daemon's files as they were; for a path that is not empty and holds no
-- quote, line feed, byte 255 or <, a client in the file service, a connection whose loops may take 128
-- rounds more than the path has bytes, and a file number, a file size and an end of the range
-- below 2^63.
pub read_file_range-contents :
    (n off m : ℕ) (path : Bytes) (s : Session) (cl : Client Daemon)
    → IsClient n file s cl
    → IsPlainFile n path s
    → length (contents path s) < 2 ^ 63
    → off + m < 2 ^ 63
    → Calls n file
        (with_open path s)
        (take m (drop off (contents path s)))
        (read_file_range path off m cl)
unfolding read_file_range
read_file_range-contents n off m path s cl h p size small =
    let bytes = contents path s in
    let fd = s.nfd + 3 in
    let call = open_in-IsPlainFile n o_rdonly 0 path s cl h p (omega arith) (omega arith) size in
    let rounds : 128 ≤ n = omega (arith, p.fits) in
    let read =
      range_rounds_lem n fd bytes (with_open path s) (with_open-IsOpen path s p.number) rounds
        (suc m) off m 0 call.left call.client small (omega arith) (omega arith) (omega arith) in
    let closed =
      deferring-Calls n fd (with_open path s) (take m (drop off bytes))
        (range_rounds (suc m) (pos fd) off m [] call.left) rounds read in
    record {
      left = closed.left;
      returned = rw (call.returned, read_file_range) closed.returned;
      client = closed.client;
    }
