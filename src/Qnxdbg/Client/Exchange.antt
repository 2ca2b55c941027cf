-- ===== src/Qnxdbg/Client/Exchange.antt =====
-- One request and its reply: `transactSub`.
use qnx8_qconn_mcp.Prelude.{
  ℕ, zero, suc, ◌+◌, ◌%◌, ◌≡◌, ◌≢◌, refl, sym, ◌∙◌, true, false, List, [], ◌∷◌, ◌++◌, append-nil,
  Bytes, IsByte, AreBytes, All, ok, err, state, arith, Bool-cases, Outcome-cases, ◌>>=◌, inl, inr,
  if◌then◌else◌, length,
}
use qnx8_qconn_mcp.Wire.{write, deliver, write_fails, later_faults}
use qnx8_qconn_mcp.Qnxdbg.Protocol.{frame}
use qnx8_qconn_mcp.Qnxdbg.Client.{
  Client, set_input, write_failed, spent, verify, read_frame, take_output, read_rounds,
  read_response, header, write_frame, transact_sub,
}
use qnx8_qconn_mcp.Qnxdbg.Client.Frames.{read_frame-frame}
use qnx8_qconn_mcp.Qnxdbg.Client.Replies.{
  IsReply, IsPassedFrame, texts_of, frames_of, read_response_passes, read_response-ne-spent,
}

abbrev pub next_mid : {P : Type 0} → Client P → ℕ
next_mid c = (c.mid + 1) % 256

-- The frame that the next request makes.
abbrev pub request : {P : Type 0} → ℕ → ℕ → Bytes → Client P → Bytes
request cmd sub body c = frame (header (next_mid c) cmd sub body)

-- The client behind a request that went out and its reply.
abbrev pub answered : {P : Type 0} → P → List Bytes → Bytes → Bytes → Client P → Client P
answered s ps rest f c = record c {
  conn = record (c.conn) {
    peer = s;
    input = rest;
    sent = c.conn.sent ++ f ∷ [];
    faults = later_faults c.conn.faults;
  };
  mid = next_mid c;
  output = c.output ++ texts_of ps;
}

-- A remote end that answers the next request by passed frames, a reply and `rest`.
pub record Answers {P : Type 0} (cmd sub : ℕ) (body : Bytes) (c : Client P) (s : P)
    (ps : List Bytes) (p rest : Bytes) : Type 0 where
  pub quiet : c.conn.input ≡ []
  pub writes : write_fails c.conn.faults ≡ false
  pub reacts :
      c.conn.react c.conn.peer (request cmd sub body c) ≡ (s, frames_of ps ++ (frame p ++ rest))
  pub passed : All IsPassedFrame ps
  pub bytes : AreBytes p
  pub reply : IsReply p

-- The client that waits for the reply.
abbrev asked : {P : Type 0} → ℕ → ℕ → Bytes → Client P → Client P
asked cmd sub body c = record c {
  conn = deliver (request cmd sub body c) (record (c.conn) { faults = later_faults c.conn.faults });
  mid = next_mid c;
}

write_frame_writes :
    {P : Type 0} (payload : Bytes) (c : Client P)
    → write_fails c.conn.faults ≡ false
    → write_frame payload c
      ≡ ok tt (record c {
        conn = deliver (frame payload) (record (c.conn) { faults = later_faults c.conn.faults });
      })
unfolding write_frame write
write_frame_writes payload c h = ground arith

write_frame_fails :
    {P : Type 0} (payload : Bytes) (c : Client P)
    → write_fails c.conn.faults ≡ true
    → write_frame payload c
      ≡ err write_failed
          (record c { conn = record (c.conn) { faults = later_faults c.conn.faults } })
unfolding write_frame write
write_frame_fails payload c h = ground arith

transact_sub_writes :
    {P : Type 0} (cmd sub : ℕ) (body : Bytes) (c : Client P)
    → write_fails c.conn.faults ≡ false
    → transact_sub cmd sub body c ≡ read_response (asked cmd sub body c)
unfolding transact_sub
transact_sub_writes cmd sub body c h =
    rw (
      write_frame_writes (header (next_mid c) cmd sub body) (record c { mid = next_mid c }) h,
      ◌>>=◌,
    )

-- The reply is returned, whatever frames the target puts before it.
pub transact_sub-answered :
    {P : Type 0} (cmd sub : ℕ) (body : Bytes) (c : Client P) {s : P} {ps : List Bytes}
    {p rest : Bytes}
    → Answers cmd sub body c s ps p rest
    → transact_sub cmd sub body c ≡ ok p (answered s ps rest (request cmd sub body c) c)
unfolding deliver
transact_sub-answered cmd sub body c {s} {ps} {p} {rest} a =
    transact_sub_writes cmd sub body c a.writes
    ∙ read_response_passes ps p rest (asked cmd sub body c) a.passed a.bytes a.reply
        (rw (a.quiet, a.reacts))
    ∙ rw a.reacts

-- Reading leaves all of the client alone but the input and the output.
record KeepsSent {P : Type 0} (c c' : Client P) : Type 0 where
  sent : c'.conn.sent ≡ c.conn.sent
  mid : c'.mid ≡ c.mid

read_frame-KeepsSent : {P : Type 0} (c : Client P) → KeepsSent c (state (read_frame c))
unfolding read_frame verify
read_frame-KeepsSent c = ground arith

read_rounds-KeepsSent : {P : Type 0} (n : ℕ) (c : Client P) → KeepsSent c (state (read_rounds n c))
unfolding read_rounds
read_rounds-KeepsSent zero c = record { sent = refl; mid = refl }
read_rounds-KeepsSent (suc n) c = elim (Outcome-cases (read_frame c)) [
  | inl (p, c1, e) ↦
      rw (e, read_rounds)
        (ground (
          arith,
          rw e at (read_frame-KeepsSent c),
          read_rounds-KeepsSent n c1,
          read_rounds-KeepsSent n (take_output p c1),
        ))
  | inr (x, c1, e) ↦ rw (e, read_rounds) (rw e at (read_frame-KeepsSent c))
]

transact_sub_unwritten :
    {P : Type 0} (cmd sub : ℕ) (body : Bytes) (c : Client P)
    → write_fails c.conn.faults ≡ true
    → transact_sub cmd sub body c
      ≡ err write_failed (record c {
        conn = record (c.conn) { faults = later_faults c.conn.faults };
        mid = next_mid c;
      })
unfolding transact_sub
transact_sub_unwritten cmd sub body c h =
    rw (
      write_frame_fails (header (next_mid c) cmd sub body) (record c { mid = next_mid c }) h,
      ◌>>=◌,
    )

-- A frame that readFrame reads as the payload, whatever stands behind it, which is left.
abbrev pub ReadsAs : Type 0 → Bytes → Bytes → Type 0
ReadsAs P w payload =
    (d : Client P) (rest : Bytes)
    → d.conn.input ≡ w ++ rest
    → read_frame d ≡ ok payload (set_input rest d)

-- What one request puts on the wire, and the client that it leaves.
pub record Requests {P : Type 0} (payload : Bytes) (mid : ℕ) (c left : Client P) : Type 0 where
  pub frame_ : Bytes
  pub reads : ReadsAs P frame_ payload
  pub sent : left.conn.sent ≡ c.conn.sent ++ (if write_fails c.conn.faults then [] else frame_ ∷ [])
  pub advanced : left.mid ≡ mid

sent-request :
    {P : Type 0} (cmd sub : ℕ) (body : Bytes) (c : Client P)
    → ((state (transact_sub cmd sub body c)).conn.sent
        ≡ c.conn.sent ++ (if write_fails c.conn.faults then [] else request cmd sub body c ∷ []))
      × ((state (transact_sub cmd sub body c)).mid ≡ next_mid c)
unfolding deliver read_response
sent-request cmd sub body c = elim (Bool-cases (write_fails c.conn.faults)) [
  | inl e ↦ rw (transact_sub_unwritten cmd sub body c e, e) (sym (append-nil c.conn.sent), refl)
  | inr e ↦
      let a = asked cmd sub body c in
      let k = read_rounds-KeepsSent (suc (length a.conn.input)) a in
      rw (transact_sub_writes cmd sub body c e, e) (k.sent, k.mid)
]

-- On every outcome transactSub advances the message id by one modulo 256, and writes one frame, or
-- none where the write fails; readFrame reads that frame as the command, its subcommand, the new
-- message id, the number 1 of the debug channel and the body, in this order, and leaves what stands
-- behind it; for a command, a subcommand and a body of bytes.
pub transact_sub-sent :
    {P : Type 0} (cmd sub : ℕ) (body : Bytes) (c : Client P)
    → IsByte cmd
    → IsByte sub
    → AreBytes body
    → Requests
        (cmd ∷ sub ∷ (c.mid + 1) % 256 ∷ 1 ∷ body)
        ((c.mid + 1) % 256)
        c
        (state (transact_sub cmd sub body c))
transact_sub-sent cmd sub body c hc hs hb =
    let payload = cmd ∷ sub ∷ (c.mid + 1) % 256 ∷ 1 ∷ body in
    let bytes : AreBytes payload = (hc, (hs, (omega arith, (omega arith, hb)))) in
    let (sent, mid) = sent-request cmd sub body c in
    record {
      frame_ = frame payload;
      reads = λ d rest e. read_frame-frame 0 payload rest d bytes e;
      sent = sent;
      advanced = mid;
    }

pub transact_sub-ne-spent :
    {P : Type 0} (cmd sub : ℕ) (body : Bytes) (c c' : Client P)
    → transact_sub cmd sub body c ≢ err spent c'
transact_sub-ne-spent cmd sub body c c' = elim (Bool-cases (write_fails c.conn.faults)) [
  | inl e ↦ rw (transact_sub_unwritten cmd sub body c e) (λ q. cc)
  | inr e ↦ rw (transact_sub_writes cmd sub body c e) (read_response-ne-spent _ c')
]
