-- ===== src/Mockqnx/Qconn/Chunks.antt =====
-- One read and one write of an open file of the mock.
use qnx8_qconn_mcp.Prelude.{
  ℕ, ◌+◌, ◌^◌, ◌≤◌, ◌<◌, ◌≡◌, ap, ◌∙◌, [], ◌∷◌, ◌++◌, append-nil, append_assoc, some, Bytes, length,
  length-append, All, pos, codes, to_hex_number, length-to_hex_number, arith,
}
use qnx8_qconn_mcp.Qconn.Client.{file}
use qnx8_qconn_mcp.Qconn.Prompt.Find.{prompt_of}
use qnx8_qconn_mcp.Qconn.Frame.{FrameConn, drop_buffered}
use qnx8_qconn_mcp.Qconn.Frame.Lines.{IsLineByte}
use qnx8_qconn_mcp.Qconn.File.{read_command, write_command, read_chunk, read_at, write_at}
use qnx8_qconn_mcp.Qconn.File.Status.{status_line}
use qnx8_qconn_mcp.Qconn.File.Replies.{
  served, line_of, Replies, Answers, AnswersPayload, read_at_reads, write_at_writes,
}
use qnx8_qconn_mcp.Mockqnx.Qconn.{
  Session, goes_on, prompt, payload_line, read_reply, read_vfile, store_vfile,
}
use qnx8_qconn_mcp.Mockqnx.Qconn.Serve.{Daemon}
use qnx8_qconn_mcp.Mockqnx.Qconn.Exchange.{
  idle, awaiting, react-goes_on, react-awaits, react-payload,
}
use qnx8_qconn_mcp.Mockqnx.Qconn.Commands.{
  read_command-IsRequest, write_command-IsRequest, dispatch-read_command, dispatch-write_command,
}
use qnx8_qconn_mcp.Mockqnx.Qconn.Link.{IsLinked, Frames, react-IsLinked, drop_buffered-IsLinked}

-- What stands behind the number in the mock's answer to a read, and to a write.
abbrev read_tail : Bytes
read_tail = codes "0:0" ++ 13 ∷ []

abbrev write_tail : Bytes
write_tail = codes "0" ++ 13 ∷ []

read_reply-status_line :
    (got : Bytes)
    → read_reply got ++ prompt file
      ≡ status_line (length got) read_tail ++ 10 ∷ (got ++ ([] ++ (prompt_of file ++ [])))
read_reply-status_line got = simp (append_assoc, append-nil)

length-status_line : (n : ℕ) (t : Bytes) → n < 2 ^ 63 → length (status_line n t) ≤ 19 + length t
length-status_line n t h =
    omega (arith, length-append (to_hex_number n) (b':' ∷ t), length-to_hex_number n (omega arith))

read_tail-IsLineByte : All IsLineByte read_tail
read_tail-IsLineByte = omega arith

write_tail-IsLineByte : All IsLineByte write_tail
write_tail-IsLineByte = omega arith

-- A part of a file that the daemon has is read as it is.
pub read_at-read_vfile :
    (n fd off want : ℕ) (got : Bytes) (s : Session) (f : FrameConn Daemon)
    → IsLinked n s f
    → 128 ≤ n
    → s.svc ≡ file
    → fd < 2 ^ 63
    → off < 2 ^ 63
    → read_chunk want < 2 ^ 63
    → length got < 2 ^ 63
    → read_vfile fd off (read_chunk want) s ≡ some got
    → Frames n s got (read_at (pos fd) off want f)
read_at-read_vfile n fd off want got s f l rounds in_file hf ho hn hg e =
    let cmd = read_command (pos fd) off (read_chunk want) in
    let replied =
      react-goes_on cmd (read_reply got ++ prompt s.svc) s s
        (read_command-IsRequest fd off (read_chunk want) ho hn)
        (dispatch-read_command s in_file fd off (read_chunk want) got hf ho hn e) in
    let prompted : read_reply got ++ prompt s.svc ≡ read_reply got ++ prompt file =
      ap (λ v. read_reply got ++ prompt v) in_file in
    let answered =
      react-IsLinked n s (line_of cmd) _ (idle s) f l replied
      ∙ ap (λ t. (idle s, t)) (prompted ∙ read_reply-status_line got) in
    let size = length-status_line (length got) read_tail hg in
    let r : Replies (length got) got f (Answers f cmd) = record {
      next = idle s;
      svc = file;
      leaked = 0;
      tail = read_tail;
      gap = [];
      rest = [];
      quiet = l.quiet;
      no_faults = l.no_faults;
      answers = answered;
      tail_is = read_tail-IsLineByte;
      gap_is = tt;
      unprompted = tt;
      small = hg;
      line_fits = omega (arith, size, l.rounds);
      gap_fits = omega (arith, l.rounds);
    } in
    record {
      left = drop_buffered (served (idle s) (line_of cmd ∷ []) [] f);
      returned = read_at_reads (pos fd) off want got f r;
      linked = drop_buffered-IsLinked n s s (line_of cmd ∷ []) f l;
    }

abbrev write_reply : ℕ → Bytes
write_reply n = codes "o:" ++ (to_hex_number n ++ (codes ":0" ++ 13 ∷ 10 ∷ []))

write_reply-status_line :
    (n : ℕ)
    → write_reply n ++ prompt file
      ≡ status_line n write_tail ++ 10 ∷ ([] ++ ([] ++ (prompt_of file ++ [])))
write_reply-status_line n = simp (append_assoc, append-nil)

payload_line-goes_on :
    (fd off : ℕ) (bytes : Bytes) (s s' : Session)
    → store_vfile fd off bytes s ≡ some s'
    → payload_line fd off bytes s ≡ goes_on (write_reply (length bytes) ++ prompt s'.svc) s'
unfolding payload_line
payload_line-goes_on fd off bytes s s' e = rw (e, payload_line)

-- Bytes that the daemon can store are stored, and their number is returned.
pub write_at-store_vfile :
    (n fd off : ℕ) (bytes : Bytes) (s s' : Session) (f : FrameConn Daemon)
    → IsLinked n s f
    → 128 ≤ n
    → s.svc ≡ file
    → s'.svc ≡ file
    → fd < 2 ^ 63
    → off < 2 ^ 63
    → 0 < length bytes
    → length bytes < 2 ^ 63
    → store_vfile fd off bytes s ≡ some s'
    → Frames n s' (pos (length bytes)) (write_at (pos fd) off bytes f)
write_at-store_vfile n fd off bytes s s' f l rounds in_file in_file' hf ho some_ hb e =
    let cmd = write_command (pos fd) off (length bytes) in
    let mid = awaiting fd off (length bytes) s in
    let first = react-IsLinked n s (line_of cmd) [] mid f l (
      react-awaits cmd fd off (length bytes) s s
        (write_command-IsRequest fd off (length bytes) ho hb) some_
        (dispatch-write_command s in_file fd off (length bytes) hf ho hb)) in
    let prompted : write_reply (length bytes) ++ prompt s'.svc
        ≡ write_reply (length bytes) ++ prompt file =
      ap (λ v. write_reply (length bytes) ++ prompt v) in_file' in
    let second =
      ap (λ r. r mid bytes) l.serves
      ∙ react-payload fd off bytes (write_reply (length bytes) ++ prompt s'.svc) s s'
          (payload_line-goes_on fd off bytes s s' e)
      ∙ ap (λ t. (idle s', t)) (prompted ∙ write_reply-status_line (length bytes)) in
    let size = length-status_line (length bytes) write_tail hb in
    let r : Replies (length bytes) [] f (AnswersPayload f cmd bytes) = record {
      next = idle s';
      svc = file;
      leaked = 0;
      tail = write_tail;
      gap = [];
      rest = [];
      quiet = l.quiet;
      no_faults = l.no_faults;
      answers = (mid, first, second);
      tail_is = write_tail-IsLineByte;
      gap_is = tt;
      unprompted = tt;
      small = hb;
      line_fits = omega (arith, size, l.rounds);
      gap_fits = omega (arith, l.rounds);
    } in
    record {
      left = drop_buffered (served (idle s') (line_of cmd ∷ bytes ∷ []) [] f);
      returned = write_at_writes (pos fd) off (length bytes) bytes f r;
      linked = drop_buffered-IsLinked n s s' (line_of cmd ∷ bytes ∷ []) f l;
    }
