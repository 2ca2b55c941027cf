-- ===== src/Debug/Rsp/Packets.antt =====
-- A packet of `SendPacket` is what `ReadPacket` reads.
use qnx8_qconn_mcp.Prelude.{
  ℕ, ◌/◌, ◌%◌, ◌≡◌, ◌≢◌, refl, ap, ◌∙◌, true, false, [], ◌∷◌, ◌++◌, append_assoc, append-nil, some,
  Bytes, AreBytes, ==_refl, if◌then◌else◌, All, ok, err, arith, Bool-cases, inl, inr, hex_digit,
  ◌>>=◌,
}
use qnx8_qconn_mcp.Wire.{write, deliver, write_fails, later_faults}
use qnx8_qconn_mcp.Debug.Codec.{checksum, escape, decode, hex_byte}
use qnx8_qconn_mcp.Debug.Codec.RoundTrip.{
  IsBody, escape-IsBody, checksum-IsByte, decode-escape, from_hex_pair-hex_digit,
}
use qnx8_qconn_mcp.Debug.Rsp.{
  Rsp, write_failed, set_input, put, packet, to_start, to_end, to_digits, scan_packet, acknowledge,
  read_packet,
}

-- Bytes that hold no start of a packet.
abbrev pub IsNoise : ℕ → Type 0
IsNoise c = c ≢ b'$'

to_start_noise : (noise s : Bytes) → All IsNoise noise → to_start (noise ++ b'$' ∷ s) ≡ some s
unfolding to_start
to_start_noise [] s h = refl
to_start_noise (c ∷ noise) s h = ground (arith, to_start_noise noise s h.1)

to_end_body :
    (raw body s : Bytes) → All IsBody body → to_end raw (body ++ b'#' ∷ s) ≡ some (raw ++ body, s)
unfolding to_end
to_end_body raw [] s h = rw (append-nil raw)
to_end_body raw (c ∷ body) s h =
    ground (arith, to_end_body (raw ++ c ∷ []) body s h.1, append_assoc raw (c ∷ []) body)

-- The scan of a stream in which a packet stands behind noise.
pub scan_packet-packet :
    (noise p rest : Bytes)
    → All IsNoise noise
    → AreBytes p
    → scan_packet (noise ++ (packet p ++ rest))
      ≡ some (
        escape p,
        hex_digit (checksum (escape p) / 16),
        hex_digit (checksum (escape p) % 16),
        rest,
      )
unfolding scan_packet packet to_digits hex_byte
scan_packet-packet noise p rest hn hp =
    let body = escape p in
    let tail = hex_digit (checksum body / 16) ∷ hex_digit (checksum body % 16) ∷ rest in
    let shape : (body ++ b'#' ∷ hex_byte (checksum body)) ++ rest ≡ body ++ b'#' ∷ tail =
      append_assoc body (b'#' ∷ hex_byte (checksum body)) rest in
    rw (shape, to_start_noise noise (body ++ b'#' ∷ tail) hn, scan_packet)
      (rw (to_end_body [] body tail (escape-IsBody p hp), to_digits))

-- The client behind a packet that was read: acknowledged by a `+`, unless in no-ack mode.
abbrev pub acked : {P : Type 0} → Bytes → Rsp P → Rsp P
acked rest r = if r.no_ack then set_input rest r else record r {
  conn =
      deliver (b'+' ∷ []) (record (r.conn) { input = rest; faults = later_faults r.conn.faults });
}

pub put_writes :
    {P : Type 0} (b : Bytes) (r : Rsp P)
    → write_fails r.conn.faults ≡ false
    → put b r
      ≡ ok tt
          (record r { conn = deliver b (record (r.conn) { faults = later_faults r.conn.faults }) })
unfolding put write
put_writes b r h = ground arith

pub put_fails :
    {P : Type 0} (b : Bytes) (r : Rsp P)
    → write_fails r.conn.faults ≡ true
    → put b r
      ≡ err write_failed
          (record r { conn = record (r.conn) { faults = later_faults r.conn.faults } })
unfolding put write
put_fails b r h = ground arith

acknowledge_right :
    {P : Type 0} (raw : Bytes) (r : Rsp P)
    → write_fails r.conn.faults ≡ false
    → acknowledge raw (checksum raw) r ≡ ok (decode raw) (acked r.conn.input r)
unfolding acknowledge
acknowledge_right raw r h = elim (Bool-cases r.no_ack) [
  | inl e ↦ rw (==_refl (checksum raw), e)
  | inr e ↦ rw (==_refl (checksum raw), put_writes (b'+' ∷ []) r h, ◌>>=◌, e)
]

-- Behind any bytes without a start mark, ReadPacket returns the payload of a packet that
-- SendPacket framed, acknowledges it by one `+`, unless in no-ack mode, and leaves what follows
-- the packet in the stream; for a payload of bytes, if the write of the `+` does not fail.
pub read_packet-packet :
    {P : Type 0} (noise p rest : Bytes) (r : Rsp P)
    → All IsNoise noise
    → AreBytes p
    → write_fails r.conn.faults ≡ false
    → r.conn.input ≡ noise ++ (packet p ++ rest)
    → read_packet r ≡ ok p (acked rest r)
unfolding read_packet
read_packet-packet noise p rest r hn hp hw e =
    rw (ap scan_packet e ∙ scan_packet-packet noise p rest hn hp, read_packet)
      (rw (from_hex_pair-hex_digit (checksum (escape p)) (checksum-IsByte (escape p)))
        (acknowledge_right (escape p) (set_input rest r) hw ∙ rw (decode-escape p hp)))
