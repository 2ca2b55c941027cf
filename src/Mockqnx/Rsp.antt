-- ===== src/Mockqnx/Rsp.antt =====
-- internal/mockqnx/rsp.go: the stub of the remote protocol.
pub mod Interop
pub mod Exchange
pub mod Memory
use qnx8_qconn_mcp.Prelude.{
  ℕ, zero, suc, ◌+◌, ◌*◌, ◌/◌, ◌%◌, ◌^◌, Bool, true, false, ◌||◌, [], ◌∷◌, ◌++◌, Option, none, some,
  Bytes, bit_xor, ◌==◌, if◌then◌else◌, length, drop, codes, same, has_prefix, cut_once, hex_digit,
  parse_hex, value_of,
}

-- `hexDigit` of a value that `&0xf` leaves.
unfoldable pub hex_digit_of : ℕ → ℕ
hex_digit_of b = hex_digit (b % 16)

unfoldable pub rsp_escape_byte : ℕ → Bytes
rsp_escape_byte b =
    if b == b'$' || b == b'#' || b == b'}' || b == b'*' then b'}' ∷ bit_xor b 0x20 ∷ [] else b ∷ []

unfoldable pub rsp_escape : Bytes → Bytes
rsp_escape [] = []
rsp_escape (b ∷ p) = rsp_escape_byte b ++ rsp_escape p

-- A `}` that ends the input stands for itself.
unfoldable pub rsp_decode : Bytes → Bytes
rsp_decode [] = []
rsp_decode (c ∷ []) = c ∷ []
rsp_decode (c ∷ (d ∷ p)) = elim (c == b'}') [
  | true ↦ bit_xor d 0x20 ∷ rsp_decode p
  | false ↦ c ∷ rsp_decode (d ∷ p)
]

-- the sum of the loop in `rspWrite`
unfoldable pub rsp_sum : ℕ → Bytes → ℕ
rsp_sum s [] = s
rsp_sum s (c ∷ p) = rsp_sum ((s + c) % 256) p

-- What `rspWrite` writes.
unfoldable pub rsp_write : Bytes → Bytes
rsp_write payload =
    let body = rsp_escape payload in
    let sum = rsp_sum 0 body in
    b'$' ∷ (body ++ b'#' ∷ hex_digit_of (sum / 16) ∷ hex_digit_of (sum % 16) ∷ [])

-- The two loops of `rspRead`, and its `Discard(2)`.
unfoldable pub past_start : Bytes → Option Bytes
past_start [] = none
past_start (b ∷ s) = if b == b'$' then some s else past_start s

unfoldable pub up_to_end : Bytes → Bytes → Option (Bytes × Bytes)
up_to_end raw [] = none
up_to_end raw (b ∷ s) =
    let more = up_to_end (raw ++ b ∷ []) s in if b == b'#' then some (raw, s) else more

unfoldable pub discard_two : Option (Bytes × Bytes) → Option (Bytes × Bytes)
discard_two (some (raw, a ∷ (b ∷ s))) = some (rsp_decode raw, s)
discard_two _ = none

-- The payload of the next packet, and what follows it.
unfoldable pub rsp_read : Bytes → Option (Bytes × Bytes)
rsp_read s = elim (past_start s) [ none ↦ none | some body ↦ discard_two (up_to_end [] body) ]

-- `%02x` of a byte
abbrev pub two_digits : ℕ → Bytes
two_digits b = hex_digit (b / 16) ∷ hex_digit (b % 16) ∷ []

-- `n` bytes of the memory, each the low byte of its address, in hexadecimal.
unfoldable pub synthetic_hex : ℕ → ℕ → Bytes
synthetic_hex addr zero = []
synthetic_hex addr (suc n) = two_digits (addr % 256) ++ synthetic_hex ((addr + 1) % 2 ^ 64) n

-- The sixteen registers of the reply to `g`.
abbrev pub register_hex : Bytes
register_hex = synthetic_hex 0 128

-- The case `m`: address and length behind it.
unfoldable pub memory_reply : Bytes → Bytes
memory_reply body = elim (cut_once b',' body) [
  | none ↦ codes "E01"
  | some (addr, n) ↦ synthetic_hex (value_of (parse_hex addr)) (value_of (parse_hex n))
]

-- `rspHandle`: a reply, or `none` where the stub closes the connection.
unfoldable pub rsp_handle : Bytes → Option Bytes
rsp_handle p =
    if same p []
    then some []
    else if has_prefix p (codes "qSupported")
    then some (codes "PacketSize=4000;multiprocess+;vContSupported+;QStartNoAckMode+")
    else if same p (codes "QStartNoAckMode")
    then some (codes "OK")
    else if has_prefix p (codes "vAttach")
    then some (codes "T05thread:1;")
    else if same p (codes "?") || same p (codes "c") || same p (codes "s")
    then some (codes "T05thread:1;")
    else if same p (codes "g")
    then some register_hex
    else if has_prefix p (codes "m")
    then some (memory_reply (drop 1 p))
    else if has_prefix p (codes "M") || has_prefix p (codes "Z") || has_prefix p (codes "z")
    then some (codes "OK")
    else if same p (codes "qfThreadInfo")
    then some (codes "m1")
    else if same p (codes "qsThreadInfo")
    then some (codes "l")
    else if has_prefix p (codes "Hg") || has_prefix p (codes "Hc") || same p (codes "D")
    then some (codes "OK")
    else if same p (codes "k")
    then none
    else some []

-- The stub: what it has not read yet, and whether it has closed the connection.
pub record Stub : Type 0 where
  pub buffer : Bytes
  pub closed : Bool

abbrev pub initial : Stub
initial = record { buffer = []; closed = false }

-- The loop of `handleRSP` over the packets of the buffer, on fuel: each takes four bytes at least.
unfoldable pub handle_rsp : ℕ → Stub → Stub × Bytes
handle_rsp zero s = (s, [])
handle_rsp (suc n) s = elim (rsp_read s.buffer) [
  | none ↦ (s, [])
  | some (payload, rest) ↦ elim (rsp_handle payload) [
    | none ↦ (record { buffer = rest; closed = true }, b'+' ∷ [])
    | some resp ↦
        let (s', more) = handle_rsp n (record s { buffer = rest }) in
        (s', b'+' ∷ (rsp_write resp ++ more))
  ]
]

unfoldable pub react : Stub → Bytes → Stub × Bytes
react s bytes =
    let buffer = s.buffer ++ bytes in
    if s.closed then (s, []) else handle_rsp (length buffer) (record s { buffer = buffer })
