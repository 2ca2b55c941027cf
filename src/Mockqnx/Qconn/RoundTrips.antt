-- ===== src/Mockqnx/Qconn/RoundTrips.antt =====
-- What the client writes to a file of the mock, and reads back.
use qnx8_qconn_mcp.Prelude.{
  ℕ, suc, ◌+◌, ◌^◌, ◌≤◌, ◌<◌, ◌≡◌, refl, ap, ◌∙◌, ◌++◌, Bytes, ◌==◌, if◌then◌else◌, length,
  length-append, length-drop, take, drop, ok, pos, arith,
}
use qnx8_qconn_mcp.Qconn.Client.{Client, file}
use qnx8_qconn_mcp.Qconn.File.{o_wronly, o_rdwr, o_creat, o_trunc, mode_rw_all, deferring}
use qnx8_qconn_mcp.Qconn.Transfer.{
  write_rounds, write_opened, write_file, write_file_at, read_file, read_file_range,
}
use qnx8_qconn_mcp.Mockqnx.Qconn.{Session, contents}
use qnx8_qconn_mcp.Mockqnx.Qconn.Serve.{Daemon}
use qnx8_qconn_mcp.Mockqnx.Qconn.Overwrite.{
  stored, take-drop-stored, length-stored_le, stored_front,
}
use qnx8_qconn_mcp.Mockqnx.Qconn.Calls.{IsClient, Calls}
use qnx8_qconn_mcp.Mockqnx.Qconn.Opened.{
  with_open, IsPlainFile, deferring-Calls, open_in-IsPlainFile, with_open-found,
}
use qnx8_qconn_mcp.Mockqnx.Qconn.Reads.{read_file-contents}
use qnx8_qconn_mcp.Mockqnx.Qconn.Ranges.{read_file_range-contents}
use qnx8_qconn_mcp.Mockqnx.Qconn.Writes.{Becomes, Becomes-same, Leaves, write_rounds_lem}

module _ (n off : ℕ) (path bytes : Bytes) (s : Session) (p : IsPlainFile n path s)
    (small : off + length bytes + length (contents path s) < 2 ^ 63) where
  -- The rounds of a write, and the end of the file behind them.
  written_rounds :
      (cl : Client Daemon)
      → IsClient n file (with_open path s) cl
      → Leaves n path (stored off bytes (contents path s)) (with_open path s) (length bytes) (
          deferring
            (pos (s.nfd + 3))
            (write_rounds (suc (length bytes)) (pos (s.nfd + 3)) off bytes 0 cl))
  unfolding contents
  written_rounds cl h =
      let s1 = with_open path s in
      let fd = s.nfd + 3 in
      let rounds : 128 ≤ n = omega (arith, p.fits) in
      let wrote =
        write_rounds_lem n fd off path bytes s1 (with_open-found path s) p.number rounds
          (omega arith) (suc (length bytes)) 0 s1 cl (omega arith) (omega arith)
          (Becomes-same path (contents path s) s1 refl) h in
      record {
        daemon = wrote.daemon;
        becomes = wrote.becomes;
        call =
            deferring-Calls n fd wrote.daemon (length bytes)
              (write_rounds (suc (length bytes)) (pos fd) off bytes 0 cl) rounds wrote.call;
      }

  -- A file that is opened, written and closed.
  write_opened_lem :
      (flags mode : ℕ) (cl : Client Daemon)
      → flags < 2 ^ 63
      → mode < 2 ^ 63
      → IsClient n file s cl
      → Leaves n path
          (stored off bytes (contents path s))
          (with_open path s)
          (length bytes)
          (write_opened path flags mode off bytes cl)
  unfolding write_opened
  write_opened_lem flags mode cl hf hm h =
      let fd = s.nfd + 3 in
      let call = open_in-IsPlainFile n flags mode path s cl h p hf hm (omega arith) in
      let wrote = written_rounds call.left call.client in
      record {
        daemon = wrote.daemon;
        becomes = wrote.becomes;
        call = record {
          left = wrote.call.left;
          returned = rw (call.returned, write_opened) wrote.call.returned;
          client = wrote.call.client;
        };
      }

  -- Against the mock, WriteFileAt writes all bytes, however many chunks that takes, and returns their
  -- number; the daemon's file then holds them from the offset on, a gap before them filled with
  -- zeros, its other bytes and all other files being as they were.
  pub write_file_at-stored :
      (cl : Client Daemon)
      → IsClient n file s cl
      → Leaves n path
          (stored off bytes (contents path s))
          (with_open path s)
          (length bytes)
          (write_file_at path off bytes cl)
  unfolding write_file_at
  write_file_at-stored cl h = write_opened_lem o_rdwr 0 cl (omega arith) (omega arith) h

  -- The daemon's file is as plain behind the write.
  Becomes-IsPlainFile :
      (b : Bytes) (s' : Session)
      → s.nfd + 4 < 2 ^ 63
      → Becomes path b (with_open path s) s'
      → IsPlainFile n path s'
  Becomes-IsPlainFile b s' h r = record {
    written = p.written;
    some_ = p.some_;
    no_node = p.no_node;
    number = omega (arith, r.nfd);
    fits = p.fits;
  }

  -- What WriteFileAt has written to a file of the mock outside /proc/, ReadFileRange reads back at the
  -- same offset, whatever the file held and wherever it ended; the write returns the number of all
  -- bytes, and changes no other file; for a path that is not empty and holds no quote, line feed, byte
  -- 255 or <, a client in the file service, a connection whose loops may take 128 rounds more than the
  -- path has bytes, and file numbers and a sum of offset, data and file size below 2^63.
  pub read_file_range-write_file_at :
      (cl : Client Daemon)
      → IsClient n file s cl
      → s.nfd + 4 < 2 ^ 63
      → (w : Leaves n path
          (stored off bytes (contents path s))
          (with_open path s)
          (length bytes)
          (write_file_at path off bytes cl))
        × Calls n file
            (with_open path w.daemon)
            bytes
            (read_file_range path off (length bytes) w.call.left)
  read_file_range-write_file_at cl h more =
      let w = write_file_at-stored cl h in
      let plain = Becomes-IsPlainFile _ w.daemon more w.becomes in
      let size : length (contents path w.daemon) < 2 ^ 63 =
        omega (arith, ap length w.becomes.holds, length-stored_le off bytes (contents path s)) in
      let read =
        read_file_range-contents n off (length bytes) path w.daemon w.call.left w.call.client plain
          size (omega arith) in
      let back : take (length bytes) (drop off (contents path w.daemon)) ≡ bytes =
        ap (λ b. take (length bytes) (drop off b)) w.becomes.holds
        ∙ take-drop-stored off bytes (contents path s) in
      (
        w,
        record {
          left = read.left;
          returned = read.returned ∙ ap (λ b. ok b read.left) back;
          client = read.client;
        },
      )

mode_fits : (mode : ℕ) → mode < 2 ^ 63 → (if mode == 0 then mode_rw_all else mode) < 2 ^ 63
mode_fits mode h = ground arith

-- Against the mock, what ReadFile finds behind a WriteFile of a path outside /proc/ is the bytes
-- written and, behind them, what the file held there before: the mock does not truncate a file that
-- is opened for that. For a path that is not empty and holds no quote, line feed, byte 255 or <, a
-- client in the file service, a connection whose loops may take 128 rounds more than the path has
-- bytes and more rounds than data and file have bytes together, and a mode, file numbers and sizes
-- below 2^63.
pub read_file-write_file :
    (n mode : ℕ) (path bytes : Bytes) (s : Session) (cl : Client Daemon)
    → IsPlainFile n path s
    → IsClient n file s cl
    → mode < 2 ^ 63
    → s.nfd + 4 < 2 ^ 63
    → length bytes + length (contents path s) + 2048 < 2 ^ 63
    → length bytes + length (contents path s) < n
    → (w : Leaves n path
        (bytes ++ drop (length bytes) (contents path s))
        (with_open path s)
        (length bytes)
        (write_file path bytes mode cl))
      × Calls n file
          (with_open path w.daemon)
          (bytes ++ drop (length bytes) (contents path s))
          (read_file path w.call.left)
unfolding write_file
read_file-write_file n mode path bytes s cl p h hm more small enough =
    let old = contents path s in
    let all_ = bytes ++ drop (length bytes) old in
    let mode' = if mode == 0 then mode_rw_all else mode in
    let fits : 0 + length bytes + length old < 2 ^ 63 = omega arith in
    let wrote =
      write_opened_lem n 0 path bytes s p fits (o_creat + o_trunc + o_wronly) mode' cl (omega arith)
        (mode_fits mode hm) h in
    let front = stored_front bytes old in
    let holds = wrote.becomes.holds ∙ front in
    let becomes : Becomes path all_ (with_open path s) wrote.daemon = rw front at wrote.becomes in
    let w : Leaves n path all_ (with_open path s) (length bytes) (write_file path bytes mode cl) =
      record { daemon = wrote.daemon; becomes = becomes; call = wrote.call } in
    let size : length (contents path wrote.daemon) ≤ length bytes + length old = omega (
      arith,
      ap length holds,
      length-append bytes (drop (length bytes) old),
      length-drop (length bytes) old,
    ) in
    let plain = Becomes-IsPlainFile n 0 path bytes s p fits _ wrote.daemon more wrote.becomes in
    let read =
      read_file-contents n path wrote.daemon wrote.call.left wrote.call.client plain (omega arith)
        (omega arith) in
    (
      w,
      record {
        left = read.left;
        returned = read.returned ∙ ap (λ b. ok b read.left) holds;
        client = read.client;
      },
    )
