-- ===== src/Qnxdbg/Client.antt =====
-- internal/qnxdbg/client.go: the connection, its frames, replies and handshake.
pub mod Frames
pub mod Sound
pub mod Replies
pub mod Exchange
pub mod Codec
use qnx8_qconn_mcp.Prelude.{
  ℕ, zero, suc, ◌+◌, ◌/◌, ◌%◌, ◌^◌, Bool, true, false, List, [], ◌∷◌, ◌++◌, Option, none, some,
  Bytes, ◌==◌, ltb, leb, if◌then◌else◌, length, take, drop, Outcome, ok, err, pure, fail, ◌>>=◌,
  ◌>>◌, map_err,
}
use qnx8_qconn_mcp.Wire.{End, Conn, write}
use qnx8_qconn_mcp.Qnxdbg.Protocol.{frame_char, chan_debug, chan_text, checksum, unescape, frame}

abbrev pub cmd_connect : ℕ
cmd_connect = 0

abbrev pub cmd_protover : ℕ
cmd_protover = 23

pub data Stage : Type 0 where
  reset connect protover : Stage

-- `errnoString`: the texts that it tells apart.
pub data Errno : Type 0 where
  no_errno enoent enoexec eacces einval : Errno
  errno : ℕ → Errno

-- The errors of the package, by the place that makes them. `target_error` and `target_errno` hold
-- the command that was refused; `spent` is the model's own, for fuel that runs out.
pub data Error : Type 0 where
  read_failed : End → Error
  write_failed : Error
  empty_frame : Error
  bad_checksum : ℕ → ℕ → Error
  handshake_failed : Stage → Error → Error
  target_error : ℕ → Error
  target_errno : ℕ → Errno → Error
  spent : Error

pub record Client (P : Type 0) : Type 0 where
  pub conn : Conn P
  pub mid : ℕ
  pub output : Bytes

abbrev pub M : Type 0 → Type 0 → Type 0
M P A = Client P → Outcome Error (Client P) A

-- The two loops of `readFrame` over the bytes to come: `none` where they end too early.
-- The first byte that is no delimiter, and what follows it.
unfoldable pub skip_delims : Bytes → Option (ℕ × Bytes)
skip_delims [] = none
skip_delims (b ∷ r) = if b == frame_char then skip_delims r else some (b, r)

-- The bytes up to the next delimiter behind `content`, and what follows the delimiter.
unfoldable pub read_content : Bytes → Bytes → Option (Bytes × Bytes)
read_content content [] = none
read_content content (b ∷ r) =
    let more = read_content (content ++ b ∷ []) r in
    if b == frame_char then some (content, r) else more

unfoldable pub scan_frame : Bytes → Option (Bytes × Bytes)
unfolding skip_delims read_content
scan_frame input = elim (skip_delims input) [
  | none ↦ none
  | some (first, r) ↦ read_content (first ∷ []) r
]

-- A decoded frame, split before its last byte: payload and checksum.
unfoldable pub split_last : Bytes → Option (Bytes × ℕ)
split_last [] = none
split_last (c ∷ []) = some ([], c)
split_last (c ∷ (d ∷ r)) = elim (split_last (d ∷ r)) [ none ↦ none | some (p, l) ↦ some (c ∷ p, l) ]

unfoldable pub verify : {P : Type 0} → Option (Bytes × ℕ) → M P Bytes
verify none = fail empty_frame
verify (some (payload, cs)) =
    if checksum payload == cs then pure payload else fail (bad_checksum cs (checksum payload))

abbrev pub set_input : {P : Type 0} → Bytes → Client P → Client P
set_input r c = record c { conn = record (c.conn) { input = r } }

-- `readFrame`. A read error has consumed all that was there.
unfoldable pub read_frame : {P : Type 0} → M P Bytes
unfolding verify scan_frame
read_frame c = elim (scan_frame c.conn.input) [
  | none ↦ err (read_failed c.conn.ending) (set_input [] c)
  | some (content, r) ↦ verify (split_last (unescape content)) (set_input r c)
]

unfoldable pub write_frame : {P : Type 0} → Bytes → M P (Unit {0})
write_frame payload c =
    let (conn', went_out) = write (frame payload) c.conn in
    let c' = record c { conn = conn' } in if went_out then ok tt c' else err write_failed c'

-- `p[3]`, the channel, of a payload of at least four bytes
abbrev pub channel : Bytes → ℕ
channel (a ∷ b ∷ m ∷ ch ∷ r) = ch
channel _ = 0

abbrev pub take_output : {P : Type 0} → Bytes → Client P → Client P
take_output p c = record c { output = c.output ++ drop 4 p }

-- The loop of `readResponse` on fuel. Every round takes two bytes of the input at least.
unfoldable pub read_rounds : {P : Type 0} → ℕ → M P Bytes
read_rounds zero c = err spent c
read_rounds (suc fuel) c = elim (read_frame c) [
  | err e c' ↦ err e c'
  | ok p c' ↦
      let again = read_rounds fuel c' in
      let text = read_rounds fuel (take_output p c') in
      if ltb (length p) 4 then again else if channel p == chan_text then text else ok p c'
]

unfoldable pub read_response : {P : Type 0} → M P Bytes
read_response c = read_rounds (suc (length c.conn.input)) c

-- `Output`: what the text channel brought, which is cleared.
unfoldable pub take_text : {P : Type 0} → Client P → Client P × Bytes
take_text c = (record c { output = [] }, c.output)

-- `append([]byte{cmd, subcmd, c.mid, chanDebug}, body...)`
abbrev pub header : ℕ → ℕ → ℕ → Bytes → Bytes
header mid cmd subcmd body = cmd ∷ subcmd ∷ mid ∷ chan_debug ∷ body

unfoldable pub transact_sub : {P : Type 0} → ℕ → ℕ → Bytes → M P Bytes
transact_sub cmd subcmd body c =
    let mid' = (c.mid + 1) % 256 in
    (write_frame (header mid' cmd subcmd body) >> read_response) (record c { mid = mid' })

unfoldable pub transact : {P : Type 0} → ℕ → Bytes → M P Bytes
transact cmd = transact_sub cmd 0

-- One step of the handshake: `c.mid = mid`, a request, and its reply.
unfoldable pub ask : {P : Type 0} → Stage → ℕ → ℕ → Bytes → M P Bytes
ask stage mid cmd body c =
    (write_frame (header mid cmd 0 body) >> map_err (handshake_failed stage) read_response)
      (record c { mid = mid })

unfoldable pub handshake : {P : Type 0} → M P (Unit {0})
handshake = do
  r ← map_err (handshake_failed reset) read_frame
  write_frame r
  p ← ask connect 0 cmd_connect (0x00 ∷ 0x07 ∷ 0x00 ∷ 0x00 ∷ [])
  q ← ask protover 1 cmd_protover (0x00 ∷ 0x07 ∷ [])
  pure tt

unfoldable pub resp_code : Bytes → ℕ
resp_code [] = 0
resp_code (code ∷ p) = code

unfoldable pub resp_body : Bytes → Bytes
resp_body p = if leb (length p) 4 then [] else drop 4 p

abbrev pub le16 : ℕ → Bytes
le16 v = v % 256 ∷ v / 2 ^ 8 % 256 ∷ []

abbrev pub le32 : ℕ → Bytes
le32 v = v % 256 ∷ v / 2 ^ 8 % 256 ∷ v / 2 ^ 16 % 256 ∷ v / 2 ^ 24 % 256 ∷ []

abbrev pub le64 : ℕ → Bytes
le64 v =
    v % 256
    ∷ v / 2 ^ 8 % 256
    ∷ v / 2 ^ 16 % 256
    ∷ v / 2 ^ 24 % 256
    ∷ v / 2 ^ 32 % 256
    ∷ v / 2 ^ 40 % 256
    ∷ v / 2 ^ 48 % 256
    ∷ v / 2 ^ 56 % 256
    ∷ []
