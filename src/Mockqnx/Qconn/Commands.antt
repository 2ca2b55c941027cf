-- ===== src/Mockqnx/Qconn/Commands.antt =====
-- internal/mockqnx/server.go: what the file service of the mock makes of each request of the client.
use qnx8_qconn_mcp.Prelude.{
  ℕ, ◌+◌, ◌^◌, ◌<◌, ◌≡◌, ◌≢◌, ◌∙◌, [], ◌∷◌, ◌++◌, some, Bytes, All, All-append, codes, same,
  has_prefix, pos, to_hex_number, signed, arith,
}
use qnx8_qconn_mcp.Qconn.Client.{file}
use qnx8_qconn_mcp.Qconn.File.{in_quotes, hex_of, open_command, read_command, write_command}
use qnx8_qconn_mcp.Mockqnx.Shell.{crlf}
use qnx8_qconn_mcp.Mockqnx.Qconn.{
  Session, entry, awaits, then_prompt, dispatch, file_line, open_line, read_line, write_line,
  read_vfile, read_reply, open_reply, opened_session,
}
use qnx8_qconn_mcp.Mockqnx.Qconn.Requests.{
  IsPathByte, hex_int64-to_hex_number, request-read_command, request-write_command,
  open_path-open_command,
}
use qnx8_qconn_mcp.Mockqnx.Qconn.Exchange.{
  IsRequest, IsRequest-append, IsRequest-to_hex_number, to_hex_number_whole,
}

-- Three numbers behind a letter.
numbers-IsRequest :
    (c fd off n : ℕ)
    → c ≢ 10
    → IsRequest
        (c ∷ b':' ∷ (to_hex_number fd ++ b':' ∷ (to_hex_number off ++ b':' ∷ to_hex_number n)))
numbers-IsRequest c fd off n h =
    IsRequest-append (c ∷ b':' ∷ []) _ (h, omega arith)
      (IsRequest-append (to_hex_number fd) _ (to_hex_number_whole fd) (
        IsRequest-append (b':' ∷ []) _ (omega arith) (
          IsRequest-append (to_hex_number off) _ (to_hex_number_whole off)
            (IsRequest-append (b':' ∷ []) _ (omega arith) (IsRequest-to_hex_number n)))))

pub read_command-IsRequest :
    (fd off n : ℕ) → off < 2 ^ 63 → n < 2 ^ 63 → IsRequest (read_command (pos fd) off n)
unfolding signed
read_command-IsRequest fd off n ho hn =
    rw (hex_int64-to_hex_number off ho, hex_int64-to_hex_number n hn)
      (numbers-IsRequest b'r' fd off n (omega arith))

pub write_command-IsRequest :
    (fd off n : ℕ) → off < 2 ^ 63 → n < 2 ^ 63 → IsRequest (write_command (pos fd) off n)
unfolding signed
write_command-IsRequest fd off n ho hn =
    rw (hex_int64-to_hex_number off ho, hex_int64-to_hex_number n hn)
      (numbers-IsRequest b'w' fd off n (omega arith))

path_whole : (path : Bytes) → All IsPathByte path → All (λ c. c ≢ 10) path
path_whole [] h = tt
path_whole (c ∷ path) h = (h.0.1, path_whole path h.1)

pub open_command-IsRequest :
    (path : Bytes) (flags mode : ℕ)
    → All IsPathByte path
    → flags < 2 ^ 63
    → mode < 2 ^ 63
    → IsRequest (open_command path flags mode)
open_command-IsRequest path flags mode h hf hm =
    let quoted = All-append (λ c. c ≢ 10) path (b'"' ∷ []) (path_whole path h) (omega arith) in
    rw (hex_int64-to_hex_number flags hf, hex_int64-to_hex_number mode hm)
      (IsRequest-append (b'o' ∷ b':' ∷ []) _ (omega arith) (
        IsRequest-append (in_quotes path) _ (omega arith, quoted)
          (IsRequest-append (b':' ∷ []) _ (omega arith) (
            IsRequest-append (to_hex_number flags) _ (to_hex_number_whole flags)
              (IsRequest-append (b':' ∷ []) _ (omega arith) (IsRequest-to_hex_number mode))))))

pub close_command-IsRequest : (fd : ℕ) → IsRequest (codes "c:" ++ hex_of (pos fd))
unfolding signed
close_command-IsRequest fd =
    IsRequest-append (codes "c:") _ (omega arith) (IsRequest-to_hex_number fd)

-- Each request in the file service.
module _ (s : Session) (in_file : s.svc ≡ file) where
  pub dispatch-file_line : (cmd : Bytes) → dispatch cmd s ≡ file_line cmd s
  unfolding dispatch
  dispatch-file_line cmd = rw in_file

  pub dispatch-open_command :
      (c : ℕ) (path : Bytes) (flags mode : ℕ)
      → All IsPathByte (c ∷ path)
      → flags < 2 ^ 63
      → mode < 2 ^ 63
      → dispatch (open_command (c ∷ path) flags mode) s
        ≡ then_prompt
            (open_reply (s.nfd + 3) ((entry (c ∷ path) s).size) (c ∷ path))
            (opened_session (c ∷ path) (entry (c ∷ path) s) s)
  unfolding file_line same has_prefix open_line
  dispatch-open_command c path flags mode h hf hm =
      dispatch-file_line (open_command (c ∷ path) flags mode)
      ∙ rw (open_path-open_command c path flags mode h hf hm, open_line)

  pub dispatch-read_command :
      (fd off n : ℕ) (got : Bytes)
      → fd < 2 ^ 63
      → off < 2 ^ 63
      → n < 2 ^ 63
      → read_vfile fd off n s ≡ some got
      → dispatch (read_command (pos fd) off n) s ≡ then_prompt (read_reply got) s
  unfolding file_line same has_prefix read_line
  dispatch-read_command fd off n got hf ho hn e =
      dispatch-file_line (read_command (pos fd) off n)
      ∙ rw (request-read_command fd off n hf ho hn, read_line) (rw e)

  pub dispatch-write_command :
      (fd off n : ℕ)
      → fd < 2 ^ 63
      → off < 2 ^ 63
      → n < 2 ^ 63
      → dispatch (write_command (pos fd) off n) s ≡ awaits fd off n s
  unfolding file_line same has_prefix write_line
  dispatch-write_command fd off n hf ho hn =
      dispatch-file_line (write_command (pos fd) off n)
      ∙ rw (request-write_command fd off n hf ho hn, write_line)

  pub dispatch-close_command :
      (fd : ℕ) → dispatch (codes "c:" ++ hex_of (pos fd)) s ≡ then_prompt (codes "o" ++ crlf) s
  unfolding file_line same has_prefix
  dispatch-close_command fd = dispatch-file_line (codes "c:" ++ hex_of (pos fd))
