-- ===== src/Mockqnx/Qconn/Reads.antt =====
-- Whole files of the mock, read by the client: `ReadFile`.
use qnx8_qconn_mcp.Prelude.{
  ℕ, zero, suc, ◌+◌, ◌-◌, ◌^◌, ◌≤◌, ◌<◌, ◌≡◌, sym, ap, ◌∙◌, true, false, inl, inr, Bool-cases, [],
  ◌++◌, some, Bytes, ◌==◌, min, length, length-take, length-drop, take, drop, take-add, take-length,
  take-length-take, ok, pos, arith,
}
use qnx8_qconn_mcp.Qconn.Client.{Client, on_frame, file}
use qnx8_qconn_mcp.Qconn.File.{max_read_chunk, read_chunk, read_at, deferring, o_rdonly}
use qnx8_qconn_mcp.Qconn.Transfer.{is_end, read_rounds, read_file}
use qnx8_qconn_mcp.Mockqnx.Qconn.{Session, contents, read_vfile}
use qnx8_qconn_mcp.Mockqnx.Qconn.Serve.{Daemon}
use qnx8_qconn_mcp.Mockqnx.Qconn.Chunks.{read_at-read_vfile}
use qnx8_qconn_mcp.Mockqnx.Qconn.Overwrite.{file_part_lem}
use qnx8_qconn_mcp.Mockqnx.Qconn.Answers.{handle}
use qnx8_qconn_mcp.Mockqnx.Qconn.Calls.{IsClient, Calls, on_frame-Frames}
use qnx8_qconn_mcp.Mockqnx.Qconn.Opened.{
  with_open, IsPlainFile, deferring-Calls, open_in-IsPlainFile, IsOpen, with_open-IsOpen,
}

is_end-le : (a b : ℕ) → is_end (pos a) b ≡ true → a ≤ b
is_end-le a b h = ground arith

pub zero_of : (n : ℕ) → (n == 0) ≡ true → n ≡ 0
zero_of n h = ground arith

pub pos_of : (n : ℕ) → (n == 0) ≡ false → 0 < n
pos_of n h = ground arith

module _ (n fd : ℕ) (bytes : Bytes) (s : Session) (o : IsOpen fd bytes s) (rounds : 128 ≤ n) where
  -- One read, of a part that an `int64` reaches.
  pub chunk_read :
      (off want : ℕ) (cl : Client Daemon)
      → IsClient n file s cl
      → off + read_chunk want < 2 ^ 63
      → Calls n file s
          (take (read_chunk want) (drop off bytes))
          (on_frame (read_at (pos fd) off want) cl)
  unfolding read_vfile
  chunk_read off want cl h small =
      let got = take (read_chunk want) (drop off bytes) in
      let part : read_vfile fd off (read_chunk want) s ≡ some got =
        rw (o.found, read_vfile) (rw o.holds (file_part_lem bytes off (read_chunk want) small)) in
      let size : length got < 2 ^ 63 =
        omega (arith, length-take (read_chunk want) (drop off bytes)) in
      on_frame-Frames n file s s got (read_at (pos fd) off want) cl h h.agreed (
        read_at-read_vfile n fd off want got s cl.fc h.linked rounds h.agreed o.number (omega arith)
          (omega arith) size part)

  -- What was read, with a chunk behind it.
  read_on :
      (k off : ℕ)
      → take off bytes ++ take k (drop off bytes)
        ≡ take (off + length (take k (drop off bytes))) bytes
  read_on k off =
      sym (ap (λ t. take off bytes ++ t) (take-length-take k (drop off bytes)))
      ∙ take-add off (length (take k (drop off bytes))) bytes

  pub length-chunk : (k off : ℕ) → length (take k (drop off bytes)) ≡ min k (length bytes - off)
  length-chunk k off = length-take k (drop off bytes) ∙ ap (min k) (length-drop off bytes)

  -- The loop reads what is left of the file.
  pub read_rounds_lem :
      (k off : ℕ) (path : Bytes) (cl : Client Daemon)
      → IsClient n file s cl
      → length bytes + 2048 < 2 ^ 63
      → off ≤ length bytes
      → length bytes < k + off
      → Calls n file s bytes (read_rounds k (handle fd (length bytes) path) off (take off bytes) cl)
  unfolding read_rounds
  read_rounds_lem zero off path cl h small le enough = absurd (omega arith)
  read_rounds_lem (suc k) off path cl h small le enough =
      let chunk = take 2048 (drop off bytes) in
      let call = chunk_read off max_read_chunk cl h (omega arith) in
      let size = length-chunk 2048 off in
      elim (Bool-cases (length chunk == 0)) [
        | inl e ↦
            let all_ : length bytes ≤ off = omega (arith, size, zero_of (length chunk) e) in
            record {
              left = call.left;
              returned =
                  rw (call.returned, read_rounds)
                    (rw e (ap (λ t. ok t call.left) (take-length off bytes all_)));
              client = call.client;
            }
        | inr e ↦ elim (Bool-cases (is_end (pos (length bytes)) (off + length chunk))) [
          | inl q ↦
              let all_ = is_end-le (length bytes) (off + length chunk) q in
              let whole = read_on 2048 off ∙ take-length (off + length chunk) bytes all_ in
              record {
                left = call.left;
                returned =
                    rw (call.returned, read_rounds) (rw (e, q) (ap (λ t. ok t call.left) whole));
                client = call.client;
              }
          | inr q ↦
              let some_ = pos_of (length chunk) e in
              let rest =
                read_rounds_lem k (off + length chunk) path call.left call.client small
                  (omega (arith, size)) (omega arith) in
              record {
                left = rest.left;
                returned =
                    rw (call.returned, read_rounds)
                      (rw (e, q) (rw (read_on 2048 off) rest.returned));
                client = rest.client;
              }
        ]
      ]

-- Against the mock, ReadFile of a path returns exactly what the daemon holds under it, however
-- many chunks that takes, and leaves client and daemon ready for the next call, the daemon's files
-- as they were; for a path that is no process node and that both ends take as it is, and a
-- connection whose loops may take more rounds than the file and the path have bytes.
pub read_file-contents :
    (n : ℕ) (path : Bytes) (s : Session) (cl : Client Daemon)
    → IsClient n file s cl
    → IsPlainFile n path s
    → length (contents path s) < n
    → length (contents path s) + 2048 < 2 ^ 63
    → Calls n file (with_open path s) (contents path s) (read_file path cl)
unfolding read_file
read_file-contents n path s cl h p enough small =
    let bytes = contents path s in
    let fd = s.nfd + 3 in
    let call =
      open_in-IsPlainFile n o_rdonly 0 path s cl h p (omega arith) (omega arith) (omega arith) in
    let rounds : 128 ≤ n = omega (arith, p.fits) in
    let read =
      read_rounds_lem n fd bytes (with_open path s) (with_open-IsOpen path s p.number) rounds n 0
        path call.left call.client small (omega arith) (omega arith) in
    let closed =
      deferring-Calls n fd (with_open path s) bytes
        (read_rounds n (handle fd (length bytes) path) 0 [] call.left) rounds read in
    record {
      left = closed.left;
      returned =
          rw (call.returned, read_file)
            (ap
                (λ k.
                  deferring (pos fd) (read_rounds k (handle fd (length bytes) path) 0 [] call.left))
                call.client.linked.rounds
              ∙ closed.returned);
      client = closed.client;
    }
