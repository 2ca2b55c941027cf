-- ===== src/Mockqnx/Rsp/Memory.antt =====
-- Memory of the stub, read through a debug session.
use qnx8_qconn_mcp.Prelude.{
  ℕ, zero, suc, ◌+◌, ◌%◌, ◌^◌, ◌<◌, ◌≡◌, refl, ap, false, [], ◌∷◌, ◌++◌, some, Bytes, IsByte,
  AreBytes, All, All-append, same, has_prefix, cut_once, pos, signed, ok, ◌>>=◌, arith, hex_digit,
  to_hex_number, value_of, IsDigit, to_hex_number-IsDigit, parse_hex-to_hex_number,
}
use qnx8_qconn_mcp.Debug.Codec.{hex_decode}
use qnx8_qconn_mcp.Debug.Codec.RoundTrip.{from_hex_pair-hex_digit}
use qnx8_qconn_mcp.Debug.Rsp.{Rsp, command}
use qnx8_qconn_mcp.Debug.Session.{Session, ask, is_error, decoded, read_request, read_memory}
use qnx8_qconn_mcp.Mockqnx.Rsp.{rsp_handle, Stub, memory_reply, synthetic_hex}
use qnx8_qconn_mcp.Mockqnx.Rsp.Exchange.{IsReady, command-rsp_handle}

-- The stub's memory: each byte is the low byte of its address.
abbrev pub memory_from : ℕ → ℕ → Bytes
memory_from addr zero = []
memory_from addr (suc n) = addr % 256 ∷ memory_from ((addr + 1) % 2 ^ 64) n

hex_decode-synthetic_hex :
    (addr n : ℕ) → hex_decode (synthetic_hex addr n) ≡ some (memory_from addr n)
unfolding hex_decode synthetic_hex
hex_decode-synthetic_hex addr zero = refl
hex_decode-synthetic_hex addr (suc n) =
    rw (hex_decode-synthetic_hex ((addr + 1) % 2 ^ 64) n, hex_decode)
      (ap (λ b. some (b ∷ memory_from ((addr + 1) % 2 ^ 64) n))
        (from_hex_pair-hex_digit (addr % 256) (omega arith)))

hex_digit-IsByte : (d : ℕ) → d < 16 → IsByte (hex_digit d)
unfolding hex_digit
hex_digit-IsByte d h = ground arith

synthetic_hex-AreBytes : (addr n : ℕ) → AreBytes (synthetic_hex addr n)
unfolding synthetic_hex
synthetic_hex-AreBytes addr zero = tt
synthetic_hex-AreBytes addr (suc n) = (
  hex_digit-IsByte _ (omega arith),
  (hex_digit-IsByte _ (omega arith), synthetic_hex-AreBytes ((addr + 1) % 2 ^ 64) n),
)

cut_once_number : (a b : Bytes) → All IsDigit a → cut_once b',' (a ++ b',' ∷ b) ≡ some (a, b)
unfolding cut_once
cut_once_number [] b h = refl
cut_once_number (c ∷ a) b h = ground (arith, cut_once_number a b h.1)

memory_reply_lem :
    (addr n : ℕ)
    → addr < 2 ^ 64
    → n < 2 ^ 64
    → memory_reply (to_hex_number addr ++ b',' ∷ to_hex_number n) ≡ synthetic_hex addr n
unfolding memory_reply value_of
memory_reply_lem addr n ha hn =
    rw
      (
        cut_once_number (to_hex_number addr) (to_hex_number n) (to_hex_number-IsDigit addr),
        memory_reply,
      )
      (rw (parse_hex-to_hex_number addr ha, parse_hex-to_hex_number n hn))

rsp_handle-read_request :
    (addr n : ℕ)
    → addr < 2 ^ 64
    → n < 2 ^ 64
    → rsp_handle (read_request addr (pos n)) ≡ some (synthetic_hex addr n)
unfolding rsp_handle same has_prefix signed
rsp_handle-read_request addr n ha hn = ap some (memory_reply_lem addr n ha hn)

All-bytes : (s : Bytes) → All IsDigit s → AreBytes s
All-bytes [] h = tt
All-bytes (c ∷ s) h = (h.0.1, All-bytes s h.1)

read_request-AreBytes : (addr n : ℕ) → AreBytes (read_request addr (pos n))
unfolding signed
read_request-AreBytes addr n = (
  omega arith,
  All-append IsByte (to_hex_number addr) (b',' ∷ to_hex_number n)
      (All-bytes _ (to_hex_number-IsDigit addr))
      (omega arith, All-bytes _ (to_hex_number-IsDigit n)),
)

-- A reply of the memory is no error: its length is even.
synthetic_hex-no_error : (addr n : ℕ) → is_error (synthetic_hex addr n) ≡ false
unfolding synthetic_hex
synthetic_hex-no_error addr zero = refl
synthetic_hex-no_error addr (suc zero) = refl
synthetic_hex-no_error addr (suc (suc n)) = refl

ask_served :
    (p resp : Bytes) (s : Session Stub) (r : Rsp Stub)
    → command p s.rsp ≡ ok resp r
    → ask p s ≡ ok resp (record s { rsp = r })
unfolding ask
ask_served p resp s r h = rw (h, ask)

-- Against the stub, ReadMemory of a session returns exactly the bytes of the stub's memory from
-- the address on, whatever the length, and leaves session and stub ready for the next command; for
-- an address and a length of 64 bits.
pub read_memory-memory_from :
    (addr n : ℕ) (s : Session Stub)
    → addr < 2 ^ 64
    → n < 2 ^ 64
    → IsReady s.rsp
    → (s' : Session Stub) × (read_memory addr (pos n) s ≡ ok (memory_from addr n) s')
      × IsReady s'.rsp
unfolding read_memory decoded
read_memory-memory_from addr n s ha hn ready =
    let (r, served, again) =
      command-rsp_handle (read_request addr (pos n)) (synthetic_hex addr n) s.rsp ready
        (read_request-AreBytes addr n) (synthetic_hex-AreBytes addr n)
        (rsp_handle-read_request addr n ha hn) in
    (
      record s { rsp = r },
      rw (ask_served (read_request addr (pos n)) (synthetic_hex addr n) s r served, ◌>>=◌)
          (rw (synthetic_hex-no_error addr n, hex_decode-synthetic_hex addr n)),
      again,
    )
