-- ===== src/Qnxdbg/Target/Exchange.antt =====
-- One request to a target that serves it.
use qnx8_qconn_mcp.Prelude.{ℕ, ◌≡◌, ◌≢◌, refl, [], ◌∷◌, append-nil, Bytes, ok, arith}
use qnx8_qconn_mcp.Qnxdbg.Protocol.{frame}
use qnx8_qconn_mcp.Qnxdbg.Client.{Client, transact_sub, resp_code, resp_body}
use qnx8_qconn_mcp.Qnxdbg.Client.Exchange.{request, answered, Answers, transact_sub-answered}
use qnx8_qconn_mcp.Qnxdbg.Commands.{resp_err}
use qnx8_qconn_mcp.Qnxdbg.Target.{Served}

pub resp_body-reply :
    (code sub mid ch : ℕ) (body : Bytes) → resp_body (code ∷ sub ∷ mid ∷ ch ∷ body) ≡ body
unfolding resp_body
resp_body-reply code sub mid ch [] = refl
resp_body-reply code sub mid ch (x ∷ body) = ground arith

-- A client with nothing in flight, connected to a target that reacts by `react`.
pub record IsIdle {P : Type 0} (react : P → Bytes → P × Bytes) (c : Client P) : Type 0 where
  pub quiet : c.conn.input ≡ []
  pub no_faults : c.conn.faults ≡ []
  pub reacts : c.conn.react ≡ react

-- One exchange with a target that serves the request.
pub record Exchanged {P : Type 0} {react : P → Bytes → P × Bytes} (cmd sub : ℕ) (body : Bytes)
    (c : Client P) {s : P} {req reply : Bytes} (served : Served react s req reply) : Type 0 where
  pub p : Bytes
  pub client : Client P
  pub returned : transact_sub cmd sub body c ≡ ok p client
  pub accepted : resp_code p ≢ resp_err
  pub body_is : resp_body p ≡ reply
  pub idle : IsIdle react client
  pub peer_is : client.conn.peer ≡ served.next

module _ {P : Type 0} {react : P → Bytes → P × Bytes} where
  pub exchange :
      (cmd sub : ℕ) (body : Bytes) (c : Client P) {reply : Bytes}
      → IsIdle react c
      → (served : Served react c.conn.peer (request cmd sub body c) reply)
      → Exchanged cmd sub body c served
  unfolding resp_code
  exchange cmd sub body c {reply} idle served =
      let p = served.code ∷ served.sub ∷ served.mid ∷ served.channel_id ∷ reply in
      let answers : Answers cmd sub body c served.next served.before p [] = record {
        quiet = idle.quiet;
        writes = rw idle.no_faults;
        reacts = rw (idle.reacts, append-nil (frame p)) served.reacts;
        passed = served.passed;
        bytes = served.bytes;
        reply = (omega arith, served.no_text);
      } in
      record {
        p = p;
        client = answered served.next served.before [] (request cmd sub body c) c;
        returned = transact_sub-answered cmd sub body c answers;
        accepted = served.no_error;
        body_is = resp_body-reply _ _ _ _ reply;
        idle = record { quiet = refl; no_faults = rw idle.no_faults; reacts = idle.reacts };
        peer_is = refl;
      }
