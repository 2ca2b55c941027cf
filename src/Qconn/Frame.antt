-- ===== src/Qconn/Frame.antt =====
-- internal/qconn/framing.go: the framed connection, with telnet negotiation and prompts.
pub mod Response
pub mod Lines
pub mod Refusals
use qnx8_qconn_mcp.Prelude.{
  ℕ, zero, suc, ◌+◌, ◌-◌, Bool, true, false, ◌||◌, ◌&&◌, List, [], ◌∷◌, ◌++◌, Option, none, some,
  Bytes, ◌==◌, ltb, leb, if◌then◌else◌, length, take, drop, Outcome, ok, err, pure, fail, ◌>>=◌,
  ◌>>◌, codes,
}
use qnx8_qconn_mcp.Wire.{End, eof, timeout, Conn, write}
use qnx8_qconn_mcp.Qconn.Telnet.{iac, dont, doo, wont, will, sb, se}
use qnx8_qconn_mcp.Qconn.Noise.{trim_left, trim_right, trim_space, is_cr}
use qnx8_qconn_mcp.Qconn.Prompt.{before_prompt}

-- The operation that a protocol error names.
pub data Op : Type 0 where
  service open_op close_op read_op write_op delete_op chmod_op kill_op : Op

-- The errors of the package. `unexpected` and `refused` hold the response that is no success;
-- `spent` is the model's own, for a loop that runs out of rounds.
pub data Error : Type 0 where
  read_failed : End → Error
  write_failed : Error
  unexpected : Op → Bytes → Error
  refused : Op → Bytes → Error
  spent : Error

-- `protoErr`
abbrev pub proto_err : Op → Bytes → Error
proto_err op got = unexpected op (trim_space got)

-- A connection. `buffered` says how many of the bytes that wait the buffered reader holds, at a
-- place that the writes so far and these bytes tell; `rounds` bounds what one loop may take.
pub record FrameConn (P : Type 0) : Type 0 where
  pub conn : Conn P
  pub telnet : Bool
  pub buffered : List Bytes → Bytes → ℕ
  pub rounds : ℕ

abbrev pub F : Type 0 → Type 0 → Type 0
F P A = FrameConn P → Outcome Error (FrameConn P) A

abbrev pub set_input : {P : Type 0} → Bytes → FrameConn P → FrameConn P
set_input s f = record f { conn = record (f.conn) { input = s } }

module _ {P : Type 0} where
  unfoldable pub write_raw : Bytes → F P (Unit {0})
  write_raw b f =
      let (conn', went_out) = write b f.conn in
      let f' = record f { conn = conn' } in if went_out then ok tt f' else err write_failed f'

  unfoldable pub write_line : Bytes → F P (Unit {0})
  write_line s = write_raw (s ++ 10 ∷ [])

  -- `f.br.ReadByte()`
  unfoldable pub next_byte : F P ℕ
  next_byte f = elim f.conn.input [
    | [] ↦ err (read_failed f.conn.ending) f
    | b ∷ s ↦ ok b (set_input s f)
  ]

-- The loop over a subnegotiation: what stands behind its end.
unfoldable pub skip_sub : Bytes → Option Bytes
skip_sub [] = none
skip_sub (b ∷ []) = none
skip_sub (b ∷ (n ∷ s)) = elim (b == iac) [
  | true ↦ elim (n == se) [ true ↦ some s | false ↦ skip_sub s ]
  | false ↦ skip_sub (n ∷ s)
]

module _ {P : Type 0} where
  -- A read that fails has consumed all that was there.
  unfoldable pub skip_subnegotiation : F P (Unit {0})
  skip_subnegotiation f = elim (skip_sub f.conn.input) [
    | none ↦ err (read_failed f.conn.ending) (set_input [] f)
    | some s ↦ ok tt (set_input s f)
  ]

  -- The reply to the option of a command, or none.
  unfoldable pub answer_option : ℕ → ℕ → F P (Unit {0})
  answer_option cmd opt =
      if cmd == doo
      then write_raw (iac ∷ wont ∷ opt ∷ [])
      else if cmd == will
      then write_raw (iac ∷ dont ∷ opt ∷ [])
      else pure tt

  -- The switch of `handleIAC`.
  unfoldable pub negotiate : ℕ → F P (Unit {0})
  negotiate cmd =
      if cmd == iac
      then pure tt
      else if cmd == doo || cmd == dont || cmd == will || cmd == wont
      then next_byte >>= answer_option cmd
      else if cmd == sb
      then skip_subnegotiation
      else pure tt

  unfoldable pub handle_iac : F P (Unit {0})
  handle_iac = next_byte >>= negotiate

  -- The loop of `readByte`, by the rounds left.
  unfoldable pub byte_rounds : ℕ → F P ℕ
  byte_rounds zero f = err spent f
  byte_rounds (suc n) f = elim (next_byte f) [
    | err e f' ↦ err e f'
    | ok b f' ↦
        let negotiated : Outcome Error (FrameConn P) ℕ = elim (handle_iac f') [
          | err e f'' ↦ err e f''
          | ok u f'' ↦ byte_rounds n f''
        ] in
        if f.telnet && b == iac then negotiated else ok b f'
  ]

  unfoldable pub read_byte : F P ℕ
  read_byte f = byte_rounds f.rounds f

-- The blanks among the first `n` bytes, dropped.
unfoldable pub skip_blanks : ℕ → Bytes → Bytes
skip_blanks zero s = s
skip_blanks (suc n) [] = []
skip_blanks (suc n) (c ∷ s) = if c == b' ' || c == 9 then skip_blanks n s else c ∷ s

abbrev pub is_space : ℕ → Bool
is_space c = c == b' '

-- `if b == '>' || b == ' ' || b == '\n'`
abbrev pub may_end : ℕ → Bool
may_end b = b == b'>' || b == b' ' || b == 10

module _ {P : Type 0} where
  -- `for f.br.Buffered() > 0 { … }`
  unfoldable pub drop_buffered : FrameConn P → FrameConn P
  drop_buffered f = set_input (skip_blanks (f.buffered f.conn.sent f.conn.input) f.conn.input) f

  -- What `readUntilPrompt` returns when the stream ends: a text at its end is a response.
  unfoldable pub ended : Bytes → Error → F P Bytes
  ended text (read_failed eof) f = elim text [ [] ↦ err (read_failed eof) f | c ∷ s ↦ ok (c ∷ s) f ]
  ended text e f = err e f

  -- The loop of `readUntilPrompt`: the text so far, and the place from which it is tested.
  unfoldable pub prompt_rounds : ℕ → Bytes → ℕ → F P Bytes
  prompt_rounds zero text scan f = err spent f
  prompt_rounds (suc n) text scan f = elim (read_byte f) [
    | err e f' ↦ ended text e f'
    | ok b f' ↦
        let text' = text ++ b ∷ [] in
        let later = prompt_rounds n text' scan f' in
        let bounded = prompt_rounds n text' (length text' - 64) f' in
        let unmatched = if ltb 256 (length text') then bounded else later in
        let tested : Outcome Error (FrameConn P) Bytes = elim (before_prompt (drop scan text')) [
          | none ↦ unmatched
          | some t ↦ ok (trim_left is_space (take scan text' ++ t)) (drop_buffered f')
        ] in
        if may_end b then tested else later
  ]

  unfoldable pub read_until_prompt : F P Bytes
  read_until_prompt f = prompt_rounds f.rounds [] 0 f

  -- `io.ReadFull(f.br, buf)`: exactly `n` bytes, telnet commands among them included.
  unfoldable pub read_n : ℕ → F P Bytes
  read_n n f =
      if leb n (length f.conn.input)
      then ok (take n f.conn.input) (set_input (drop n f.conn.input) f)
      else err (read_failed f.conn.ending) (set_input [] f)

  -- The loop of `readResponseLine`.
  unfoldable pub line_rounds : ℕ → Bytes → F P Bytes
  line_rounds zero text f = err spent f
  line_rounds (suc n) text f = elim (read_byte f) [
    | err e f' ↦ err e f'
    | ok b f' ↦
        let later = line_rounds n (text ++ b ∷ []) f' in
        if b == 10 then ok (trim_left is_space (trim_right is_cr text)) f' else later
  ]

  unfoldable pub read_response_line : F P Bytes
  read_response_line f = line_rounds f.rounds [] f

  -- `handshake` of the framed connection.
  unfoldable pub frame_handshake : F P (Unit {0})
  frame_handshake = do banner ← read_until_prompt; pure tt
