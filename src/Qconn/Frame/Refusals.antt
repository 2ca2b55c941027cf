-- ===== src/Qconn/Frame/Refusals.antt =====
-- Telnet commands before a data byte: `readByte` and `handleIAC`.
use qnx8_qconn_mcp.Prelude.{
  ℕ, suc, ◌+◌, ◌-◌, ◌<◌, ◌≡◌, ◌≢◌, refl, sym, ap, ◌∙◌, true, false, List, [], ◌∷◌, ◌++◌, append-nil,
  append_assoc, some, Bytes, ◌==◌, if◌then◌else◌, length, All, Outcome, ok, ◌>>=◌, arith,
  Bool-cases, inl, inr,
}
use qnx8_qconn_mcp.Wire.{deliver, write}
use qnx8_qconn_mcp.Qconn.Telnet.{
  iac, dont, doo, wont, will, sb, se, has_option, Piece, data_byte, negotiation, subnegotiation,
  command, on_wire, IsPlain, IsNegotiation, IsBare, has_option-IsNegotiation, has_option-IsBare,
}
use qnx8_qconn_mcp.Qconn.Frame.Response.{byte_rounds_plain}
use qnx8_qconn_mcp.Qconn.Frame.{
  Error, FrameConn, set_input, next_byte, skip_sub, skip_subnegotiation, answer_option, negotiate,
  handle_iac, byte_rounds, read_byte, write_raw,
}

-- A command, without data.
abbrev pub IsCommand : Piece → Type 0
IsCommand (data_byte b) = ⊥
IsCommand (negotiation c o) = IsNegotiation c
IsCommand (subnegotiation body) = All IsPlain body
IsCommand (command c) = IsBare c

-- What is written for a piece: DO is refused by WONT, WILL by DONT.
abbrev pub refusal : Piece → List Bytes
refusal (negotiation c o) =
    if c == 253
    then (255 ∷ 252 ∷ o ∷ []) ∷ []
    else if c == 251
    then (255 ∷ 254 ∷ o ∷ []) ∷ []
    else []
refusal _ = []

abbrev pub refusals : List Piece → List Bytes
refusals [] = []
refusals (p ∷ ps) = refusal p ++ refusals ps

skip_sub_end : (body s : Bytes) → All IsPlain body → skip_sub (body ++ iac ∷ se ∷ s) ≡ some s
unfolding skip_sub
skip_sub_end [] s h = refl
skip_sub_end (b ∷ []) s h = ground arith
skip_sub_end (b ∷ (c ∷ body)) s h = ground (arith, skip_sub_end (c ∷ body) s h.1)

-- A connection that has taken a command and read on.
record Taken {P : Type 0} (f : FrameConn P) (rest : Bytes) (written : List Bytes) : Type 0 where
  left : FrameConn P
  answers : Bytes
  done : handle_iac f ≡ ok tt left
  input : left.conn.input ≡ rest ++ answers
  sent : left.conn.sent ≡ f.conn.sent ++ written
  faults : left.conn.faults ≡ []
  telnet : left.telnet ≡ f.telnet

module _ {P : Type 0} where
  pub write_raw_writes :
      (b : Bytes) (f : FrameConn P)
      → f.conn.faults ≡ []
      → write_raw b f ≡ ok tt (record f { conn = deliver b (record (f.conn) { faults = [] }) })
  unfolding write_raw write
  write_raw_writes b f h = rw h

  next_byte_lem :
      (b : ℕ) (s : Bytes) (f : FrameConn P)
      → f.conn.input ≡ b ∷ s
      → next_byte f ≡ ok b (set_input s f)
  unfolding next_byte
  next_byte_lem b s f e = rw (e, next_byte)

  handle_iac-negotiate :
      (c : ℕ) (s : Bytes) (f : FrameConn P)
      → f.conn.input ≡ c ∷ s
      → handle_iac f ≡ negotiate c (set_input s f)
  unfolding handle_iac
  handle_iac-negotiate c s f e = rw (next_byte_lem c s f e, ◌>>=◌)

  negotiate_option :
      (c o : ℕ) (s : Bytes) (f : FrameConn P)
      → has_option c ≡ true
      → f.conn.input ≡ o ∷ s
      → negotiate c f ≡ answer_option c o (set_input s f)
  unfolding negotiate
  negotiate_option c o s f h e =
      let other : (c == iac) ≡ false = ground arith in
      rw (other, h) (rw (next_byte_lem o s f e, ◌>>=◌))

  -- A command that writes nothing.
  silent-Taken :
      (rest : Bytes) (f : FrameConn P)
      → f.conn.faults ≡ []
      → handle_iac f ≡ ok tt (set_input rest f)
      → Taken f rest []
  silent-Taken rest f q e = record {
    left = set_input rest f;
    answers = [];
    done = e;
    input = sym (append-nil rest);
    sent = sym (append-nil f.conn.sent);
    faults = q;
    telnet = refl;
  }

  skip_subnegotiation_lem :
      (s : Bytes) (f : FrameConn P)
      → skip_sub f.conn.input ≡ some s
      → skip_subnegotiation f ≡ ok tt (set_input s f)
  unfolding skip_subnegotiation
  skip_subnegotiation_lem s f e = rw (e, skip_subnegotiation)

  take_sub :
      (body rest : Bytes) (f : FrameConn P)
      → All IsPlain body
      → f.conn.faults ≡ []
      → f.conn.input ≡ sb ∷ (body ++ iac ∷ se ∷ rest)
      → Taken f rest []
  unfolding negotiate
  take_sub body rest f h q e =
      let s = body ++ iac ∷ se ∷ rest in
      silent-Taken rest f q (
        handle_iac-negotiate sb s f e
        ∙ skip_subnegotiation_lem rest (set_input s f) (skip_sub_end body rest h))

  take_command :
      (c : ℕ) (rest : Bytes) (f : FrameConn P)
      → has_option c ≡ false
      → c ≢ sb
      → f.conn.faults ≡ []
      → f.conn.input ≡ c ∷ rest
      → Taken f rest []
  unfolding negotiate
  take_command c rest f h ne q e =
      silent-Taken rest f q (handle_iac-negotiate c rest f e ∙ ground arith)

  -- A refusal goes out.
  refused-Taken :
      (b rest : Bytes) (f : FrameConn P)
      → f.conn.faults ≡ []
      → handle_iac f ≡ write_raw b (set_input rest f)
      → Taken f rest (b ∷ [])
  unfolding deliver
  refused-Taken b rest f q e = record {
    left = record f { conn = deliver b (record (f.conn) { input = rest; faults = [] }) };
    answers = (f.conn.react f.conn.peer b).1;
    done = e ∙ write_raw_writes b (set_input rest f) q;
    input = refl;
    sent = refl;
    faults = refl;
    telnet = refl;
  }

  take_option :
      (c o : ℕ) (rest : Bytes) (f : FrameConn P)
      → has_option c ≡ true
      → f.conn.faults ≡ []
      → f.conn.input ≡ c ∷ o ∷ rest
      → Taken f rest (refusal (negotiation c o))
  unfolding answer_option
  take_option c o rest f h q e =
      let answered : handle_iac f ≡ answer_option c o (set_input rest f) =
        handle_iac-negotiate c (o ∷ rest) f e
        ∙ negotiate_option c o rest (set_input (o ∷ rest) f) h refl in
      elim (Bool-cases (c == doo)) [
        | inl d ↦ rw d (refused-Taken (iac ∷ wont ∷ o ∷ []) rest f q (answered ∙ rw d))
        | inr d ↦ elim (Bool-cases (c == will)) [
          | inl w ↦ rw (d, w) (refused-Taken (iac ∷ dont ∷ o ∷ []) rest f q (answered ∙ rw (d, w)))
          | inr w ↦ rw (d, w) (silent-Taken rest f q (answered ∙ rw (d, w)))
        ]
      ]

  -- Every command is taken.
  take_piece :
      (p : Piece) (ps : List Piece) (f : FrameConn P) (tail : Bytes)
      → IsCommand p
      → f.conn.faults ≡ []
      → f.conn.input ≡ on_wire (p ∷ ps) ++ tail
      → (s : Bytes) × (f.conn.input ≡ iac ∷ s)
        × Taken (set_input s f) (on_wire ps ++ tail) (refusal p)
  take_piece (data_byte b) ps f tail h q e = absurd h
  take_piece (negotiation c o) ps f tail h q e =
      let s = c ∷ o ∷ (on_wire ps ++ tail) in
      (
        s,
        e,
        take_option c o (on_wire ps ++ tail) (set_input s f) (has_option-IsNegotiation c h) q refl,
      )
  take_piece (command c) ps f tail h q e =
      let s = c ∷ (on_wire ps ++ tail) in
      let (no_option, no_sub) = has_option-IsBare c h in
      (s, e, take_command c (on_wire ps ++ tail) (set_input s f) no_option no_sub q refl)
  take_piece (subnegotiation body) ps f tail h q e =
      let s = sb ∷ (body ++ iac ∷ se ∷ (on_wire ps ++ tail)) in
      let e' = e ∙ ap (λ t. iac ∷ sb ∷ t) (append_assoc body (iac ∷ se ∷ on_wire ps) tail) in
      (s, e', take_sub body (on_wire ps ++ tail) (set_input s f) h q refl)

  -- A command is taken in one round.
  round-Taken :
      (n : ℕ) (s rest : Bytes) (written : List Bytes) (f : FrameConn P)
      → f.telnet ≡ true
      → f.conn.input ≡ iac ∷ s
      → (t : Taken (set_input s f) rest written) → byte_rounds (suc n) f ≡ byte_rounds n t.left
  unfolding byte_rounds
  round-Taken n s rest written f on e t =
      rw (next_byte_lem iac s f e, byte_rounds) (rw t.done (rw on))

-- A byte that is returned behind commands.
pub record ReadByte {P : Type 0} (b : ℕ) (tail : Bytes) (written : List Bytes) (f : FrameConn P)
    (result : Outcome Error (FrameConn P) ℕ) : Type 0 where
  pub left : FrameConn P
  pub answers : Bytes
  pub returned : result ≡ ok b left
  pub input : left.conn.input ≡ tail ++ answers
  pub sent : left.conn.sent ≡ f.conn.sent ++ written

module _ {P : Type 0} where
  byte_rounds_commands :
      (ps : List Piece) (b : ℕ) (tail : Bytes) (n : ℕ) (f : FrameConn P)
      → All IsCommand ps
      → b ≢ iac
      → f.telnet ≡ true
      → f.conn.faults ≡ []
      → f.conn.input ≡ on_wire ps ++ b ∷ tail
      → ReadByte b tail (refusals ps) f (byte_rounds (length ps + suc n) f)
  byte_rounds_commands [] b tail n f h ne on q e =
      let bare : 0 + suc n ≡ suc n = omega arith in
      rw bare (record {
        left = set_input tail f;
        answers = [];
        returned = byte_rounds_plain n b tail f ne e;
        input = sym (append-nil tail);
        sent = sym (append-nil f.conn.sent);
      })
  byte_rounds_commands (p ∷ ps) b tail n f h ne on q e =
      let more : suc (length ps) + suc n ≡ suc (length ps + suc n) = omega arith in
      let (s, starts, t) = take_piece p ps f (b ∷ tail) h.0 q e in
      let later =
        byte_rounds_commands ps b (tail ++ t.answers) n t.left h.1 ne (t.telnet ∙ on) t.faults
          (t.input ∙ append_assoc (on_wire ps) (b ∷ tail) t.answers) in
      rw more (record {
        left = later.left;
        answers = t.answers ++ later.answers;
        returned = round-Taken (length ps + suc n) s _ _ f on starts t ∙ later.returned;
        input = later.input ∙ append_assoc tail t.answers later.answers;
        sent = later.sent ∙ rw t.sent (append_assoc f.conn.sent (refusal p) (refusals ps));
      })

  -- While telnet is on and writes succeed, readByte returns the next data byte behind any telnet
  -- commands whose subnegotiations hold no 0xFF, having written WONT for each option that the remote
  -- end asked for and DONT for each that it offered, in order, and nothing else; what stands behind
  -- the byte is left, before anything that the remote end answered. One round more than there are
  -- commands suffices.
  pub read_byte_refuses :
      (ps : List Piece) (b : ℕ) (tail : Bytes) (f : FrameConn P)
      → All IsCommand ps
      → b ≢ iac
      → f.telnet ≡ true
      → f.conn.faults ≡ []
      → length ps < f.rounds
      → f.conn.input ≡ on_wire ps ++ b ∷ tail
      → ReadByte b tail (refusals ps) f (read_byte f)
  unfolding read_byte
  read_byte_refuses ps b tail f h ne on q lt e =
      let rounds : f.rounds ≡ length ps + suc (f.rounds - suc (length ps)) = omega arith in
      let read = byte_rounds_commands ps b tail (f.rounds - suc (length ps)) f h ne on q e in
      record {
        left = read.left;
        answers = read.answers;
        returned = ap (λ n. byte_rounds n f) rounds ∙ read.returned;
        input = read.input;
        sent = read.sent;
      }
