-- ===== src/Mockqnx/Rsp/Interop.antt =====
-- The stub's packets are the client's: what one side writes, the other reads.
use qnx8_qconn_mcp.Prelude.{
  ℕ, zero, suc, ◌+◌, ◌/◌, ◌%◌, ◌<◌, ◌≡◌, refl, ap, ◌∙◌, false, [], ◌∷◌, ◌++◌, append_assoc,
  append-nil, none, some, Bytes, AreBytes, IsByte, length, All, All-append, arith, xor-xor,
  hex_digit,
}
use qnx8_qconn_mcp.Debug.Codec.{sum_bytes, checksum, escape_byte, escape, hex_byte}
use qnx8_qconn_mcp.Debug.Codec.RoundTrip.{IsBody, escape-IsBody, checksum-IsByte}
use qnx8_qconn_mcp.Debug.Rsp.{packet}
use qnx8_qconn_mcp.Debug.Rsp.Packets.{IsNoise}
use qnx8_qconn_mcp.Mockqnx.Rsp.{
  hex_digit_of, rsp_escape_byte, rsp_escape, rsp_decode, rsp_sum, rsp_write, past_start, up_to_end,
  discard_two, rsp_read, rsp_handle, Stub, handle_rsp, react,
}

rsp_escape-escape : (p : Bytes) → rsp_escape p ≡ escape p
unfolding rsp_escape escape rsp_escape_byte escape_byte
rsp_escape-escape [] = refl
rsp_escape-escape (c ∷ p) = ap (λ r. escape_byte c ++ r) (rsp_escape-escape p)

rsp_sum-sum_bytes : (s : ℕ) (p : Bytes) → rsp_sum s p ≡ sum_bytes s p
unfolding rsp_sum sum_bytes
rsp_sum-sum_bytes s [] = refl
rsp_sum-sum_bytes s (c ∷ p) = rsp_sum-sum_bytes ((s + c) % 256) p

-- The stub writes the packets of `SendPacket`.
pub rsp_write-packet : (p : Bytes) → rsp_write p ≡ packet p
unfolding rsp_write packet hex_digit_of hex_byte checksum
rsp_write-packet p =
    let sum = checksum (escape p) in
    let small : sum < 256 = checksum-IsByte (escape p) in
    let high : sum / 16 % 16 ≡ sum / 16 = omega arith in
    let low : sum % 16 % 16 ≡ sum % 16 = omega arith in
    rw (rsp_escape-escape p, rsp_sum-sum_bytes 0 (escape p), high, low)

rsp_decode-escape_byte :
    (c : ℕ) (r : Bytes) → IsByte c → rsp_decode (escape_byte c ++ r) ≡ c ∷ rsp_decode r
unfolding rsp_decode escape_byte
rsp_decode-escape_byte c [] h = ground (arith, xor-xor c h)
rsp_decode-escape_byte c (d ∷ r) h = ground (arith, xor-xor c h)

rsp_decode-escape : (p : Bytes) → AreBytes p → rsp_decode (escape p) ≡ p
unfolding escape
rsp_decode-escape [] h = unfold rsp_decode in refl
rsp_decode-escape (c ∷ p) h =
    rsp_decode-escape_byte c (escape p) h.0 ∙ ap (◌∷◌ c) (rsp_decode-escape p h.1)

past_start_noise : (noise s : Bytes) → All IsNoise noise → past_start (noise ++ b'$' ∷ s) ≡ some s
unfolding past_start
past_start_noise [] s h = refl
past_start_noise (c ∷ noise) s h = ground (arith, past_start_noise noise s h.1)

past_start-noise : (noise : Bytes) → All IsNoise noise → past_start noise ≡ none
unfolding past_start
past_start-noise [] h = refl
past_start-noise (c ∷ noise) h = ground (arith, past_start-noise noise h.1)

up_to_end_body :
    (raw body s : Bytes)
    → All IsBody body
    → up_to_end raw (body ++ b'#' ∷ s) ≡ some (raw ++ body, s)
unfolding up_to_end
up_to_end_body raw [] s h = rw (append-nil raw)
up_to_end_body raw (c ∷ body) s h =
    ground (arith, up_to_end_body (raw ++ c ∷ []) body s h.1, append_assoc raw (c ∷ []) body)

-- Behind bytes without a start mark, the stub reads the payload of a packet of `SendPacket`.
pub rsp_read-packet :
    (noise p rest : Bytes)
    → All IsNoise noise
    → AreBytes p
    → rsp_read (noise ++ (packet p ++ rest)) ≡ some (p, rest)
unfolding rsp_read packet discard_two hex_byte
rsp_read-packet noise p rest hn hp =
    let body = escape p in
    let tail = hex_digit (checksum body / 16) ∷ hex_digit (checksum body % 16) ∷ rest in
    let shape : (body ++ b'#' ∷ hex_byte (checksum body)) ++ rest ≡ body ++ b'#' ∷ tail =
      append_assoc body (b'#' ∷ hex_byte (checksum body)) rest in
    rw (shape, past_start_noise noise (body ++ b'#' ∷ tail) hn, rsp_read)
      (rw (up_to_end_body [] body tail (escape-IsBody p hp), discard_two)
        (rw (rsp_decode-escape p hp)))

-- A stub that waits for a packet: no start mark is left in its buffer.
abbrev pub IsIdle : Stub → Type 0
IsIdle s = (s.closed ≡ false) × All IsNoise s.buffer

rsp_read-noise : (noise : Bytes) → All IsNoise noise → rsp_read noise ≡ none
unfolding rsp_read
rsp_read-noise noise h = rw (past_start-noise noise h, rsp_read)

handle_rsp-noise : (n : ℕ) (s : Stub) → All IsNoise s.buffer → handle_rsp n s ≡ (s, [])
unfolding handle_rsp
handle_rsp-noise zero s h = refl
handle_rsp-noise (suc n) s h = rw (rsp_read-noise s.buffer h, handle_rsp)

-- An idle stub keeps what is no packet, and answers nothing.
pub react-noise :
    (s : Stub) (noise : Bytes)
    → IsIdle s
    → All IsNoise noise
    → react s noise ≡ (record s { buffer = s.buffer ++ noise }, [])
unfolding react
react-noise s noise (open_, quiet) h = rw open_ (
    handle_rsp-noise (length (s.buffer ++ noise))
      (record { buffer = s.buffer ++ noise; closed = false })
      (All-append IsNoise s.buffer noise quiet h))

handle_rsp_one :
    (n : ℕ) (s : Stub) (p resp : Bytes)
    → rsp_read s.buffer ≡ some (p, [])
    → rsp_handle p ≡ some resp
    → handle_rsp (suc n) s ≡ (record s { buffer = [] }, b'+' ∷ packet resp)
unfolding handle_rsp
handle_rsp_one n s p resp e answered =
    rw (e, handle_rsp)
      (rw (answered, handle_rsp)
        (rw (
          handle_rsp-noise n (record s { buffer = [] }) tt,
          append-nil (rsp_write resp),
          rsp_write-packet resp,
        )))

length-packet : (noise p : Bytes) → (k : ℕ) × (length (noise ++ packet p) ≡ suc k)
unfolding packet
length-packet [] p = (_, refl)
length-packet (c ∷ noise) p = (_, refl)

-- An idle stub acknowledges one whole packet, answers it, and is idle again.
pub react-packet :
    (s : Stub) (p resp : Bytes)
    → IsIdle s
    → AreBytes p
    → rsp_handle p ≡ some resp
    → react s (packet p) ≡ (record { buffer = []; closed = false }, b'+' ∷ packet resp)
unfolding react
react-packet s p resp (open_, quiet) hp e =
    let (k, len) = length-packet s.buffer p in
    let whole : rsp_read (s.buffer ++ packet p) ≡ some (p, []) =
      rw append-nil at (rsp_read-packet s.buffer p [] quiet hp) in
    rw (open_, len)
      (handle_rsp_one k (record { buffer = s.buffer ++ packet p; closed = false }) p resp whole e)
