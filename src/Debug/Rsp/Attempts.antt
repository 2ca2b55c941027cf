-- ===== src/Debug/Rsp/Attempts.antt =====
-- The attempts of `SendPacket`.
use qnx8_qconn_mcp.Prelude.{
  ℕ, zero, suc, ◌≤◌, ◌≡◌, ◌≢◌, refl, sym, ap, ◌∙◌, Bool, true, false, [], ◌∷◌, ◌++◌, append_assoc,
  append-nil, Bytes, ◌==◌, if◌then◌else◌, replicate, ok, err, Outcome, state, arith, Bool-cases,
  Outcome-cases, inl, inr,
}
use qnx8_qconn_mcp.Wire.{deliver, write_fails, later_faults}
use qnx8_qconn_mcp.Debug.Rsp.Packets.{put_writes, put_fails}
use qnx8_qconn_mcp.Debug.Rsp.{
  Rsp, Error, too_many_naks, packet, read_ack, send_attempts, send_packet,
}

-- What `send_attempts n frame r` may leave: `tries` copies of the frame were written, at most `n`;
-- at least one where it succeeds, and all `n` where it gives up.
pub record Attempted {P : Type 0} (n : ℕ) (frame : Bytes) (r : Rsp P)
    (o : Outcome Error (Rsp P) (Unit {0})) : Type 0 where
  pub tries : ℕ
  pub within : tries ≤ n
  pub repeats : (state o).conn.sent ≡ r.conn.sent ++ replicate tries frame
  pub went_out : (r' : Rsp P) → o ≡ ok tt r' → 1 ≤ tries
  pub gave_up : (r' : Rsp P) → o ≡ err too_many_naks r' → tries ≡ n

read_ack_keeps : {P : Type 0} (r : Rsp P) → (state (read_ack r)).conn.sent ≡ r.conn.sent
unfolding read_ack
read_ack_keeps r = ground arith

read_ack_patient :
    {P : Type 0} (r : Rsp P) {x : Error} {s : Rsp P} → read_ack r ≡ err x s → x ≢ too_many_naks
unfolding read_ack
read_ack_patient r {x} {s} h = ground arith

-- The first attempt is the last.
settled :
    {P : Type 0} (n : ℕ) (frame : Bytes) (r : Rsp P) (o : Outcome Error (Rsp P) (Unit {0}))
    → (state o).conn.sent ≡ r.conn.sent ++ frame ∷ []
    → ((r' : Rsp P) → o ≢ err too_many_naks r')
    → Attempted (suc n) frame r o
settled n frame r o sent patient = record {
  tries = 1;
  within = omega arith;
  repeats = sent;
  went_out = λ r' q. omega arith;
  gave_up = λ r' q. absurd (patient r' q);
}

-- Another attempt follows.
retried :
    {P : Type 0} (n : ℕ) (frame : Bytes) (r r1 : Rsp P) (o : Outcome Error (Rsp P) (Unit {0}))
    → r1.conn.sent ≡ r.conn.sent ++ frame ∷ []
    → Attempted n frame r1 o
    → Attempted (suc n) frame r o
retried n frame r r1 o sent a = record {
  tries = suc a.tries;
  within = omega (arith, a.within);
  repeats =
      a.repeats
      ∙ ap (λ s. s ++ replicate a.tries frame) sent
      ∙ append_assoc r.conn.sent (frame ∷ []) (replicate a.tries frame);
  went_out = λ r' q. omega arith;
  gave_up = λ r' q. ap suc (a.gave_up r' q);
}

-- The client behind one write that goes out.
abbrev written : {P : Type 0} → Bytes → Rsp P → Rsp P
written b r = record r {
  conn = deliver b (record (r.conn) { faults = later_faults r.conn.faults });
}

written-sent :
    {P : Type 0} (b : Bytes) (r : Rsp P) → (written b r).conn.sent ≡ r.conn.sent ++ b ∷ []
unfolding deliver
written-sent b r = refl

unwritten :
    {P : Type 0} (n : ℕ) (frame : Bytes) (r : Rsp P)
    → write_fails r.conn.faults ≡ true
    → Attempted (suc n) frame r (send_attempts (suc n) frame r)
unfolding send_attempts
unwritten n frame r h =
    rw (put_fails frame r h, send_attempts)
      (record {
        tries = 0;
        within = omega arith;
        repeats = sym (append-nil r.conn.sent);
        went_out = λ r' q. absurd cc;
        gave_up = λ r' q. absurd cc;
      })

either :
    {P : Type 0} {n : ℕ} {frame : Bytes} {r : Rsp P} (b : Bool)
    {x y : Outcome Error (Rsp P) (Unit {0})}
    → Attempted n frame r x
    → Attempted n frame r y
    → Attempted n frame r (if b then x else y)
either true ax ay = ax
either false ax ay = ay

send_attempts-Attempted :
    {P : Type 0} (n : ℕ) (frame : Bytes) (r : Rsp P) → Attempted n frame r (send_attempts n frame r)
unfolding send_attempts
send_attempts-Attempted zero frame r = record {
  tries = 0;
  within = omega arith;
  repeats = sym (append-nil r.conn.sent);
  went_out = λ r' q. absurd cc;
  gave_up = λ r' q. refl;
}
send_attempts-Attempted (suc n) frame r = elim (Bool-cases (write_fails r.conn.faults)) [
  | inl h ↦ unwritten n frame r h
  | inr h ↦
      rw (put_writes frame r h, send_attempts)
        (either r.no_ack (settled n frame r _ (written-sent frame r) (λ r' q. cc))
          (elim (Outcome-cases (read_ack (written frame r))) [
            | inl (ack, r2, e) ↦
                let sent = (rw e at (read_ack_keeps (written frame r))) ∙ written-sent frame r in
                rw e (
                  either (ack == b'+') (settled n frame r _ sent (λ r' q. cc))
                    (retried n frame r r2 _ sent (send_attempts-Attempted n frame r2)))
            | inr (x, r2, e) ↦
                let sent = (rw e at (read_ack_keeps (written frame r))) ∙ written-sent frame r in
                rw e (settled n frame r _ sent (λ r' q. read_ack_patient (written frame r) e cc))
          ]))
]

-- SendPacket writes nothing but copies of the payload's packet, five at most: at least one where
-- it succeeds, and exactly five where it reports too many NAKs; whatever the remote end answers.
pub send_packet-Attempted :
    {P : Type 0} (payload : Bytes) (r : Rsp P)
    → Attempted 5 (packet payload) r (send_packet payload r)
unfolding send_packet
send_packet-Attempted payload r = send_attempts-Attempted 5 (packet payload) r
