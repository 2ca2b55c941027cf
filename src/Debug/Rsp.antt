-- ===== src/Debug/Rsp.antt =====
-- internal/debug/rsp.go: packets and acknowledgements over a byte stream.
pub mod Packets
pub mod Attempts
use qnx8_qconn_mcp.Prelude.{
  ℕ, zero, suc, Bool, true, false, ◌||◌, [], ◌∷◌, ◌++◌, Option, none, some, Bytes, ◌==◌, same,
  codes, if◌then◌else◌, Outcome, ok, err, pure, fail, ◌>>=◌, ◌>>◌,
}
use qnx8_qconn_mcp.Wire.{End, Conn, write}
use qnx8_qconn_mcp.Debug.Codec.{checksum, escape, decode, hex_byte, from_hex_pair}

-- The errors of the package. `refused` holds a reply that is no success; `panicked` is the run-time
-- panic of a slice out of range, and `spent` is the model's own, for fuel that runs out.
pub data Error : Type 0 where
  read_failed : End → Error
  write_failed : Error
  too_many_naks : Error
  bad_checksum : Error
  odd_hex : Error
  refused : Bytes → Error
  panicked : Error
  spent : Error

pub record Rsp (P : Type 0) : Type 0 where
  pub conn : Conn P
  pub no_ack : Bool

abbrev pub M : Type 0 → Type 0 → Type 0
M P A = Rsp P → Outcome Error (Rsp P) A

abbrev pub set_input : {P : Type 0} → Bytes → Rsp P → Rsp P
set_input rest r = record r { conn = record (r.conn) { input = rest } }

-- `r.conn.Write(b)`
unfoldable pub put : {P : Type 0} → Bytes → M P (Unit {0})
put b r =
    let (conn', went_out) = write b r.conn in
    let r' = record r { conn = conn' } in if went_out then ok tt r' else err write_failed r'

-- The frame that `SendPacket` builds.
unfoldable pub packet : Bytes → Bytes
packet payload = b'$' ∷ (escape payload ++ b'#' ∷ hex_byte (checksum (escape payload)))

-- The loop of `readAck` over the bytes to come: the first acknowledgement, and what follows it.
unfoldable pub next_ack : Bytes → Option (ℕ × Bytes)
next_ack [] = none
next_ack (b ∷ s) = if b == b'+' || b == b'-' then some (b, s) else next_ack s

-- A read that fails has consumed all that was there.
unfoldable pub read_ack : {P : Type 0} → M P ℕ
read_ack r = elim (next_ack r.conn.input) [
  | none ↦ err (read_failed r.conn.ending) (set_input [] r)
  | some (b, rest) ↦ ok b (set_input rest r)
]

-- The loop of `SendPacket`, by the number of attempts left.
unfoldable pub send_attempts : {P : Type 0} → ℕ → Bytes → M P (Unit {0})
send_attempts zero frame r = err too_many_naks r
send_attempts (suc left) frame r = elim (put frame r) [
  | err e r' ↦ err e r'
  | ok u r' ↦
      let acked : Outcome Error (Rsp _) (Unit {0}) = elim (read_ack r') [
        | err e r'' ↦ err e r''
        | ok ack r'' ↦
            let again = send_attempts left frame r'' in if ack == b'+' then ok tt r'' else again
      ] in
      if r.no_ack then ok tt r' else acked
]

unfoldable pub send_packet : {P : Type 0} → Bytes → M P (Unit {0})
send_packet payload = send_attempts 5 (packet payload)

-- The bytes behind the first `$`.
unfoldable pub to_start : Bytes → Option Bytes
to_start [] = none
to_start (b ∷ s) = if b == b'$' then some s else to_start s

-- The bytes up to the next `#` behind `raw`, and what follows it.
unfoldable pub to_end : Bytes → Bytes → Option (Bytes × Bytes)
to_end raw [] = none
to_end raw (b ∷ s) =
    let more = to_end (raw ++ b ∷ []) s in if b == b'#' then some (raw, s) else more

-- The two digits behind the body, and what follows them.
unfoldable pub to_digits : Option (Bytes × Bytes) → Option (Bytes × ℕ × ℕ × Bytes)
to_digits (some (raw, hi ∷ (lo ∷ s))) = some (raw, hi, lo, s)
to_digits _ = none

unfoldable pub scan_packet : Bytes → Option (Bytes × ℕ × ℕ × Bytes)
scan_packet s = elim (to_start s) [ none ↦ none | some body ↦ to_digits (to_end [] body) ]

-- The acknowledgement of `ReadPacket`: the result of writing `-` is not looked at.
unfoldable pub acknowledge : {P : Type 0} → Bytes → ℕ → M P Bytes
acknowledge raw want r =
    let nak = put (b'-' ∷ []) r in
    let refuse : Outcome Error (Rsp _) Bytes = elim nak [
      | ok u r' ↦ err bad_checksum r'
      | err e r' ↦ err bad_checksum r'
    ] in
    let accept : Outcome Error (Rsp _) Bytes = (put (b'+' ∷ []) >> pure (decode raw)) r in
    if checksum raw == want
    then if r.no_ack then ok (decode raw) r else accept
    else if r.no_ack
    then err bad_checksum r
    else refuse

unfoldable pub read_packet : {P : Type 0} → M P Bytes
read_packet r = elim (scan_packet r.conn.input) [
  | none ↦ err (read_failed r.conn.ending) (set_input [] r)
  | some (raw, hi, lo, rest) ↦ acknowledge raw (from_hex_pair hi lo) (set_input rest r)
]

unfoldable pub command : {P : Type 0} → Bytes → M P Bytes
command payload = send_packet payload >> read_packet

unfoldable pub enable_no_ack : {P : Type 0} → M P (Unit {0})
enable_no_ack r = elim (command (codes "QStartNoAckMode") r) [
  | err e r' ↦ err e r'
  | ok resp r' ↦ ok tt (if same resp (codes "OK") then record r' { no_ack = true } else r')
]
