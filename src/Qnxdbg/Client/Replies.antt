-- ===== src/Qnxdbg/Client/Replies.antt =====
-- `readResponse`: the frames that it passes over, and that it always comes to an end.
use qnx8_qconn_mcp.Prelude.{
  ℕ, zero, suc, ◌<◌, ◌≤◌, ◌≡◌, ◌≢◌, refl, ap, ◌∙◌, List, [], ◌∷◌, ◌++◌, append_assoc, append-nil,
  Bytes, AreBytes, ltb, lt→ltb, le→ltb, if◌then◌else◌, length, length-append, drop, All, ok, err,
  arith, Outcome-cases, inl, inr, ◌⊎◌,
}
use qnx8_qconn_mcp.Qnxdbg.Protocol.{chan_text, frame}
use qnx8_qconn_mcp.Qnxdbg.Client.{
  Client, spent, verify, set_input, read_frame, channel, take_output, read_rounds, read_response,
}
use qnx8_qconn_mcp.Qnxdbg.Client.Frames.{read_frame-frame}
use qnx8_qconn_mcp.Qnxdbg.Client.Sound.{read_frame-length}

-- A payload that `readResponse` does not return: a control frame, or program output.
abbrev pub IsPassed : Bytes → Type 0
IsPassed p = (length p < 4) ⊎ ((4 ≤ length p) × (channel p ≡ chan_text))

-- A payload that it returns.
abbrev pub IsReply : Bytes → Type 0
IsReply p = (4 ≤ length p) × (channel p ≢ chan_text)

-- The text that one passed payload adds to the output.
abbrev pub text_of : Bytes → Bytes
text_of p = if ltb (length p) 4 then [] else drop 4 p

abbrev pub texts_of : List Bytes → Bytes
texts_of [] = []
texts_of (p ∷ ps) = text_of p ++ texts_of ps

-- Payloads as they stand on the wire, one frame behind the other.
abbrev pub frames_of : List Bytes → Bytes
frames_of [] = []
frames_of (p ∷ ps) = frame p ++ frames_of ps

read_frame-ne-spent : {P : Type 0} (c c' : Client P) → read_frame c ≢ err spent c'
unfolding read_frame verify
read_frame-ne-spent c c' = ground arith

read_rounds-ne-spent :
    {P : Type 0} (fuel : ℕ) (c c' : Client P)
    → length c.conn.input < fuel
    → read_rounds fuel c ≢ err spent c'
unfolding read_rounds
read_rounds-ne-spent zero c c' h = elim h [ ]
read_rounds-ne-spent (suc fuel) c c' h = elim (Outcome-cases (read_frame c)) [
  | inl (p, c1, e) ↦
      rw (e, read_rounds)
        (ground (
          arith,
          read_frame-length c e,
          read_rounds-ne-spent fuel c1 c',
          read_rounds-ne-spent fuel (take_output p c1) c',
        ))
  | inr (x, c1, e) ↦ rw (e, read_rounds) (λ q. read_frame-ne-spent c c' (e ∙ q))
]

-- `readResponse` ends: the fuel, one more than the bytes that are there, is never used up.
pub read_response-ne-spent : {P : Type 0} (c c' : Client P) → read_response c ≢ err spent c'
unfolding read_response
read_response-ne-spent c c' = read_rounds-ne-spent (suc (length c.conn.input)) c c' (omega arith)

-- The state behind passed payloads: read, and their texts kept.
abbrev pub after : {P : Type 0} → List Bytes → Bytes → Client P → Client P
after ps rest c = set_input rest (record c { output = c.output ++ texts_of ps })

abbrev pub IsPassedFrame : Bytes → Type 0
IsPassedFrame p = AreBytes p × IsPassed p

-- One round over a passed frame, and one that returns.
read_rounds_passed :
    {P : Type 0} (q rest : Bytes) (fuel : ℕ) (c : Client P)
    → read_frame c ≡ ok q (set_input rest c)
    → IsPassed q
    → read_rounds (suc fuel) c ≡ read_rounds fuel (after (q ∷ []) rest c)
unfolding read_rounds
read_rounds_passed q rest fuel c e (inl short) =
    rw (e, read_rounds, lt→ltb (length q) 4 short, append-nil c.output)
read_rounds_passed q rest fuel c e (inr (long, text)) =
    rw (e, read_rounds, le→ltb (length q) 4 long, text, append-nil (drop 4 q))

read_rounds_reply :
    {P : Type 0} (p rest : Bytes) (fuel : ℕ) (c : Client P)
    → read_frame c ≡ ok p (set_input rest c)
    → IsReply p
    → read_rounds (suc fuel) c ≡ ok p (after [] rest c)
unfolding read_rounds
read_rounds_reply p rest fuel c e (long, other) =
    rw (e, read_rounds, le→ltb (length p) 4 long, append-nil c.output) (ground arith)

read_rounds_lem :
    {P : Type 0} (ps : List Bytes) (p rest : Bytes) (fuel : ℕ) (c : Client P)
    → All IsPassedFrame ps
    → AreBytes p
    → IsReply p
    → length ps < fuel
    → c.conn.input ≡ frames_of ps ++ (frame p ++ rest)
    → read_rounds fuel c ≡ ok p (after ps rest c)
read_rounds_lem ps p rest zero c hs hp reply f e = elim f [ ]
read_rounds_lem [] p rest (suc fuel) c hs hp reply f e =
    read_rounds_reply p rest fuel c (read_frame-frame 0 p rest c hp e) reply
read_rounds_lem (q ∷ ps) p rest (suc fuel) c hs hp reply f e =
    let later = frames_of ps ++ (frame p ++ rest) in
    let start = read_frame-frame 0 q later c hs.0.0 (e ∙ append_assoc (frame q) _ _) in
    let then_ =
      read_rounds_lem ps p rest fuel (after (q ∷ []) later c) hs.1 hp reply (omega arith) refl in
    read_rounds_passed q later fuel c start hs.0.1
    ∙ then_
    ∙ rw (append-nil (text_of q), append_assoc c.output (text_of q) (texts_of ps))

length-frames_of : (ps : List Bytes) → length ps ≤ length (frames_of ps)
unfolding frame
length-frames_of [] = omega arith
length-frames_of (p ∷ ps) =
    omega (arith, length-append (frame p) (frames_of ps), length-frames_of ps)

-- `readResponse` passes over control frames and program output, in any number, keeps the output
-- in order, and returns the first other payload; what follows that frame stays in the stream.
pub read_response_passes :
    {P : Type 0} (ps : List Bytes) (p rest : Bytes) (c : Client P)
    → All IsPassedFrame ps
    → AreBytes p
    → IsReply p
    → c.conn.input ≡ frames_of ps ++ (frame p ++ rest)
    → read_response c ≡ ok p (after ps rest c)
unfolding read_response
read_response_passes ps p rest c hs hp reply e =
    read_rounds_lem ps p rest (suc (length c.conn.input)) c hs hp reply
      (omega
        (arith, ap length e, length-append (frames_of ps) (frame p ++ rest), length-frames_of ps))
      e
