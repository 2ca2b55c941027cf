-- ===== src/Mockqnx/Qconn/Calls.antt =====
-- Calls of the client that the mock answers: single commands, opening and closing a file.
use qnx8_qconn_mcp.Prelude.{
  ℕ, ◌+◌, ◌^◌, ◌≤◌, ◌<◌, ◌≡◌, ◌≢◌, refl, ap, ◌∙◌, true, [], ◌∷◌, ◌++◌, Bytes, length, length-append,
  All, All-append, Outcome, ok, ◌>>=◌, ◌>>◌, codes, has_prefix, same, split, cut_at, pos, arith,
}
use qnx8_qconn_mcp.Qconn.Telnet.{IsPlain}
use qnx8_qconn_mcp.Qconn.Noise.{is_noise, trim_left, trim_right, trim_space, first_of, first_line}
use qnx8_qconn_mcp.Qconn.Prompt.{all_blank}
use qnx8_qconn_mcp.Qconn.Client.{
  Service, Client, on_frame, raw, ensure, broker, launcher, file, cntl, sinfo,
}
use qnx8_qconn_mcp.Qconn.Frame.{F, is_space, write_line, read_until_prompt}
use qnx8_qconn_mcp.Qconn.File.{
  hex_of, open_command, opened, open_file, is_ok, expect_ok, close_file,
}
use qnx8_qconn_mcp.Mockqnx.Qconn.{Session, entry, goes_on, prompt, dispatch, opened_session}
use qnx8_qconn_mcp.Mockqnx.Qconn.Serve.{Daemon}
use qnx8_qconn_mcp.Mockqnx.Qconn.Requests.{IsPathByte}
use qnx8_qconn_mcp.Mockqnx.Qconn.Exchange.{IsRequest}
use qnx8_qconn_mcp.Mockqnx.Qconn.Commands.{
  open_command-IsRequest, close_command-IsRequest, dispatch-open_command, dispatch-close_command,
}
use qnx8_qconn_mcp.Mockqnx.Qconn.Link.{IsLinked, Frames, asks}
use qnx8_qconn_mcp.Mockqnx.Qconn.Answers.{
  IsTextByte, unmarked-HasNoPrompt, handle, open_text, open_text-All, length-open_text,
  open_reply-open_text, handle_of-open_text, first_line-open_text,
}

-- A client whose connection is to a daemon in state `s`, both of which are in service `svc`.
pub record IsClient (n : ℕ) (svc : Service) (s : Session) (c : Client Daemon) : Type 0 where
  pub linked : IsLinked n s c.fc
  pub current : c.current ≡ svc
  pub agreed : s.svc ≡ svc

-- What a call returns, and the client that it leaves.
pub record Calls {E A : Type 0} (n : ℕ) (svc : Service) (s : Session) (a : A)
    (result : Outcome E (Client Daemon) A) : Type 0 where
  pub left : Client Daemon
  pub returned : result ≡ ok a left
  pub client : IsClient n svc s left

-- A call of the framed connection.
pub on_frame-Frames :
    {A : Type 0} (n : ℕ) (svc : Service) (s s' : Session) (a : A) (m : F Daemon A)
    (c : Client Daemon)
    → IsClient n svc s c
    → s'.svc ≡ svc
    → Frames n s' a (m c.fc)
    → Calls n svc s' a (on_frame m c)
on_frame-Frames n svc s s' a m c h agreed fr = record {
  left = record c { fc = fr.left };
  returned = rw (fr.returned, on_frame);
  client = record { linked = fr.linked; current = h.current; agreed = agreed };
}

text-IsPlain : (s : Bytes) → All IsTextByte s → All IsPlain s
text-IsPlain [] h = tt
text-IsPlain (c ∷ s) h = (h.0.0, text-IsPlain s h.1)

text_unmarked : (s : Bytes) → All IsTextByte s → All (λ c. c ≢ b'<') s
text_unmarked [] h = tt
text_unmarked (c ∷ s) h = (h.0.1, text_unmarked s h.1)

pub length-prompt : (svc : Service) → length (prompt svc) ≤ 17
length-prompt broker = omega arith
length-prompt launcher = omega arith
length-prompt file = omega arith
length-prompt cntl = omega arith
length-prompt sinfo = omega arith

-- A command that is answered by a line of text.
pub raw_line :
    (n : ℕ) (svc : Service) (cmd line : Bytes) (s s' : Session) (c : Client Daemon)
    → IsClient n svc s c
    → s'.svc ≡ svc
    → IsRequest cmd
    → All IsTextByte line
    → length line + 32 ≤ n
    → dispatch cmd s ≡ goes_on ((line ++ 13 ∷ 10 ∷ []) ++ prompt s'.svc) s'
    → Calls n svc s' (trim_left is_space (line ++ 13 ∷ 10 ∷ [])) (raw cmd c)
unfolding raw
raw_line n svc cmd line s s' c h agreed q text fits e =
    let body = line ++ 13 ∷ 10 ∷ [] in
    let plain = All-append IsPlain line (13 ∷ 10 ∷ []) (text-IsPlain line text) (omega arith) in
    let unmarked =
      All-append (λ d. d ≢ b'<') line (13 ∷ 10 ∷ []) (text_unmarked line text) (omega arith) in
    let enough : length body + length (prompt s'.svc) ≤ n =
      omega (arith, length-append line (13 ∷ 10 ∷ []), length-prompt s'.svc) in
    on_frame-Frames n svc s s' (trim_left is_space body) (write_line cmd >> read_until_prompt) c h
      agreed
      (asks n cmd body s s' c.fc h.linked q plain (unmarked-HasNoPrompt body unmarked) enough e)

plain_ok : is_ok (first_line (trim_left is_space (codes "o" ++ 13 ∷ 10 ∷ []))) ≡ true
unfolding trim_left trim_right trim_space first_line first_of split cut_at is_noise same all_blank
    has_prefix
plain_ok = refl

module _ (n : ℕ) (s : Session) (cl : Client Daemon) (h : IsClient n file s cl) where
  pub open_file_lem :
      (c : ℕ) (path : Bytes) (flags mode : ℕ)
      → All IsPathByte (c ∷ path)
      → flags < 2 ^ 63
      → mode < 2 ^ 63
      → s.nfd + 3 < 2 ^ 63
      → (entry (c ∷ path) s).size < 2 ^ 63
      → length path + 128 ≤ n
      → Calls n file
          (opened_session (c ∷ path) (entry (c ∷ path) s) s)
          (handle (s.nfd + 3) ((entry (c ∷ path) s).size) (c ∷ path))
          (open_file (c ∷ path) flags mode cl)
  unfolding open_file opened
  open_file_lem c path flags mode hp hf hm hfd hsize fits =
      let e = entry (c ∷ path) s in
      let s' = opened_session (c ∷ path) e s in
      let text = open_text (s.nfd + 3) e.size (c ∷ path) in
      let replied =
        dispatch-open_command s h.agreed c path flags mode hp hf hm
        ∙ ap (λ b. goes_on (b ++ prompt s.svc) s')
            (open_reply-open_text (s.nfd + 3) (e.size) (c ∷ path)) in
      let size = length-open_text (s.nfd + 3) (e.size) (c ∷ path) hfd hsize in
      let asked =
        raw_line n file (open_command (c ∷ path) flags mode) text s s' cl h h.agreed
          (open_command-IsRequest (c ∷ path) flags mode hp hf hm)
          (open_text-All (s.nfd + 3) (e.size) (c ∷ path) hp) (omega (arith, size)) replied in
      let untrimmed : trim_left is_space (text ++ 13 ∷ 10 ∷ []) ≡ text ++ 13 ∷ 10 ∷ [] =
        unfold trim_left in refl in
      let line =
        ap first_line untrimmed ∙ first_line-open_text (s.nfd + 3) (e.size) (c ∷ path) hp in
      let found = handle_of-open_text (s.nfd + 3) (e.size) c path hfd hsize in
      record {
        left = asked.left;
        returned = rw (asked.returned, ◌>>=◌) (rw (line, opened) (rw found));
        client = asked.client;
      }

  -- A file is closed, and the daemon keeps what it has.
  pub close_file_lem : (fd : ℕ) → 128 ≤ n → Calls n file s tt (close_file (pos fd) cl)
  unfolding close_file expect_ok
  close_file_lem fd fits =
      let asked =
        raw_line n file (codes "c:" ++ hex_of (pos fd)) (codes "o") s s cl h h.agreed
          (close_command-IsRequest fd) (omega arith) (omega arith)
          (dispatch-close_command s h.agreed fd) in
      record {
        left = asked.left;
        returned = rw (asked.returned, ◌>>=◌) (rw plain_ok);
        client = asked.client;
      }

  -- The service is already entered.
  pub ensure_file : ensure file cl ≡ ok tt cl
  unfolding ensure
  ensure_file = rw (h.current, ensure)
