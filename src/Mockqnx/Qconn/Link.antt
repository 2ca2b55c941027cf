-- ===== src/Mockqnx/Qconn/Link.antt =====
-- A client of the mock: what its framed connection reads when the daemon answers a request.
use qnx8_qconn_mcp.Prelude.{
  ℕ, zero, suc, ◌+◌, ◌≤◌, ◌≡◌, refl, sym, ap, ◌∙◌, List, [], ◌∷◌, ◌++◌, append-nil, append_assoc,
  Bytes, length, All, Outcome, ok, ◌>>=◌, ◌>>◌, arith,
}
use qnx8_qconn_mcp.Qconn.Telnet.{IsPlain}
use qnx8_qconn_mcp.Qconn.Noise.{trim_left}
use qnx8_qconn_mcp.Qconn.Prompt.Find.{HasNoPrompt, prompt_of}
use qnx8_qconn_mcp.Qconn.Frame.{
  FrameConn, Error, skip_blanks, drop_buffered, is_space, write_line, read_until_prompt,
}
use qnx8_qconn_mcp.Qconn.Frame.Response.{read_until_prompt_response}
use qnx8_qconn_mcp.Qconn.File.Replies.{served, line_of, write_line_writes, deliver-served}
use qnx8_qconn_mcp.Mockqnx.Qconn.{Session, goes_on, dispatch, prompt}
use qnx8_qconn_mcp.Mockqnx.Qconn.Serve.{Daemon, react}
use qnx8_qconn_mcp.Mockqnx.Qconn.Exchange.{IsRequest, idle, react-goes_on}

-- A connection to a daemon that is in state `s` and waits for a line, with nothing left to read,
-- whose writes go out, and whose loops may take `n` rounds.
pub record IsLinked (n : ℕ) (s : Session) (f : FrameConn Daemon) : Type 0 where
  pub peer : f.conn.peer ≡ idle s
  pub serves : f.conn.react ≡ react
  pub quiet : f.conn.input ≡ []
  pub no_faults : f.conn.faults ≡ []
  pub rounds : f.rounds ≡ n

-- What a call returns, and the connection that it leaves.
pub record Frames {A : Type 0} (n : ℕ) (s : Session) (a : A)
    (result : Outcome Error (FrameConn Daemon) A) : Type 0 where
  pub left : FrameConn Daemon
  pub returned : result ≡ ok a left
  pub linked : IsLinked n s left

skip_blanks-nil : (n : ℕ) → skip_blanks n [] ≡ []
unfolding skip_blanks
skip_blanks-nil zero = refl
skip_blanks-nil (suc n) = refl

pub drop_buffered-IsLinked :
    (n : ℕ) (s s' : Session) (w : List Bytes) (f : FrameConn Daemon)
    → IsLinked n s f
    → IsLinked n s' (drop_buffered (served (idle s') w [] f))
unfolding drop_buffered
drop_buffered-IsLinked n s s' w f l = record {
  peer = refl;
  serves = l.serves;
  quiet = skip_blanks-nil (f.buffered (f.conn.sent ++ w) []);
  no_faults = refl;
  rounds = l.rounds;
}

pub react-IsLinked :
    (n : ℕ) (s : Session) (b out : Bytes) (d : Daemon) (f : FrameConn Daemon)
    → IsLinked n s f
    → react (idle s) b ≡ (d, out)
    → f.conn.react f.conn.peer b ≡ (d, out)
react-IsLinked n s b out d f l e =
    ap (λ r. r f.conn.peer b) l.serves ∙ ap (λ p. react p b) l.peer ∙ e

-- The same, with `waiting` to be read, which the daemon has sent unasked.
pub record IsBehind (n : ℕ) (waiting : Bytes) (s : Session) (f : FrameConn Daemon) : Type 0 where
  pub peer : f.conn.peer ≡ idle s
  pub serves : f.conn.react ≡ react
  pub waits : f.conn.input ≡ waiting
  pub no_faults : f.conn.faults ≡ []
  pub rounds : f.rounds ≡ n

drop_buffered_behind :
    (n : ℕ) (waiting : Bytes) (s s' : Session) (w : List Bytes) (f : FrameConn Daemon)
    → IsBehind n waiting s f
    → IsLinked n s' (drop_buffered (served (idle s') w [] f))
unfolding drop_buffered
drop_buffered_behind n waiting s s' w f l = record {
  peer = refl;
  serves = l.serves;
  quiet = skip_blanks-nil (f.buffered (f.conn.sent ++ w) []);
  no_faults = refl;
  rounds = l.rounds;
}

-- A request that is answered by a text and the prompt: the text is read, behind what was waiting.
pub asks_behind :
    (n : ℕ) (waiting cmd body : Bytes) (s s' : Session) (f : FrameConn Daemon)
    → IsBehind n waiting s f
    → IsRequest cmd
    → All IsPlain (waiting ++ body)
    → HasNoPrompt (waiting ++ body)
    → length (waiting ++ body) + length (prompt s'.svc) ≤ n
    → dispatch cmd s ≡ goes_on (body ++ prompt s'.svc) s'
    → Frames n s' (trim_left is_space (waiting ++ body)) ((write_line cmd >> read_until_prompt) f)
asks_behind n waiting cmd body s s' f l q plain unprompted fits e =
    let reply = body ++ prompt s'.svc in
    let answered =
      ap (λ r. r f.conn.peer (line_of cmd)) l.serves
      ∙ ap (λ p. react p (line_of cmd)) l.peer
      ∙ react-goes_on cmd reply s s' q e in
    let f' = served (idle s') (line_of cmd ∷ []) (f.conn.input ++ reply) f in
    let waits : f.conn.input ++ reply ≡ (waiting ++ body) ++ (prompt_of s'.svc ++ []) =
      ap (λ t. t ++ reply) l.waits
      ∙ sym (append_assoc waiting body (prompt s'.svc))
      ∙ ap (λ t. (waiting ++ body) ++ t) (sym (append-nil (prompt s'.svc))) in
    let enough : length (waiting ++ body) + length (prompt_of s'.svc) ≤ f'.rounds =
      omega (arith, l.rounds) in
    let sent_ = deliver-served (line_of cmd) reply (idle s') f answered in
    record {
      left = drop_buffered (served (idle s') (line_of cmd ∷ []) [] f);
      returned =
          rw (write_line_writes cmd f l.no_faults, ◌>>=◌)
            (rw sent_ (
              read_until_prompt_response s'.svc (waiting ++ body) [] f' plain unprompted enough
                waits));
      linked = drop_buffered_behind n waiting s s' (line_of cmd ∷ []) f l;
    }

-- The same where nothing was waiting.
pub asks :
    (n : ℕ) (cmd body : Bytes) (s s' : Session) (f : FrameConn Daemon)
    → IsLinked n s f
    → IsRequest cmd
    → All IsPlain body
    → HasNoPrompt body
    → length body + length (prompt s'.svc) ≤ n
    → dispatch cmd s ≡ goes_on (body ++ prompt s'.svc) s'
    → Frames n s' (trim_left is_space body) ((write_line cmd >> read_until_prompt) f)
asks n cmd body s s' f l = asks_behind n [] cmd body s s' f (record {
  peer = l.peer;
  serves = l.serves;
  waits = l.quiet;
  no_faults = l.no_faults;
  rounds = l.rounds;
})
