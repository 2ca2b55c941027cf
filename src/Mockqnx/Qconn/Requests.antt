-- ===== src/Mockqnx/Qconn/Requests.antt =====
-- internal/mockqnx/server.go: what the patterns of the mock make of the requests that the client prints.
use qnx8_qconn_mcp.Prelude.{
  ℕ, ◌^◌, ◌<◌, ◌≡◌, ◌≢◌, refl, ap, ◌∙◌, true, false, [], ◌∷◌, ◌++◌, append_assoc, some, Bytes, ◌==◌,
  lt→ltb, All, has_prefix, cut_once, pos, to_hex_number, to_hex_number-All, to_hex_number-cons,
  hex_digit, hex_int64, int64, signed, int_value, arith,
}
use qnx8_qconn_mcp.Qconn.File.{open_command, read_command, write_command}
use qnx8_qconn_mcp.Qconn.File.Status.{parse_int-to_hex_number}
use qnx8_qconn_mcp.Mockqnx.Qconn.{
  is_hex, hex_run, hex_field, two_fields, open_path, hex_number, request,
}

-- A digit, as the mock's patterns have it.
abbrev pub IsHex : ℕ → Type 0
IsHex c = is_hex c ≡ true

hex_digit-IsHex : (d : ℕ) → d < 16 → IsHex (hex_digit d)
unfolding hex_digit
hex_digit-IsHex d h = ground arith

pub to_hex_number-IsHex : (n : ℕ) → All IsHex (to_hex_number n)
to_hex_number-IsHex = to_hex_number-All IsHex hex_digit-IsHex

pub hex_int64-to_hex_number : (n : ℕ) → n < 2 ^ 63 → hex_int64 n ≡ to_hex_number n
unfolding hex_int64 int64 signed
hex_int64-to_hex_number n h = rw (lt→ltb n (2 ^ 63) h)

pub hex_number-to_hex_number : (n : ℕ) → n < 2 ^ 63 → hex_number (to_hex_number n) ≡ n
unfolding int_value
hex_number-to_hex_number n h = rw (parse_int-to_hex_number n h, hex_number)

hex_run-end : (d : Bytes) → All IsHex d → hex_run d ≡ (d, [])
unfolding hex_run
hex_run-end [] h = refl
hex_run-end (c ∷ d) h = rw (hex_run-end d h.1, h.0)

hex_run-colon : (d rest : Bytes) → All IsHex d → hex_run (d ++ b':' ∷ rest) ≡ (d, b':' ∷ rest)
unfolding hex_run
hex_run-colon [] rest h = ground arith
hex_run-colon (c ∷ d) rest h = rw (hex_run-colon d rest h.1, h.0)

-- Digits, of which there is one.
abbrev IsField : Bytes → Type 0
IsField [] = ⊥
IsField (c ∷ d) = All IsHex (c ∷ d)

to_hex_number-IsField : (n : ℕ) → IsField (to_hex_number n)
to_hex_number-IsField n =
    let (c, s, e) = to_hex_number-cons n in rw e (rw e at (to_hex_number-IsHex n))

hex_field-colon :
    (d rest : Bytes) → IsField d → hex_field (b':' ∷ (d ++ b':' ∷ rest)) ≡ some (d, b':' ∷ rest)
unfolding hex_field
hex_field-colon [] rest h = absurd h
hex_field-colon (c ∷ d) rest h = rw (hex_run-colon (c ∷ d) rest h)

hex_field-end : (d : Bytes) → IsField d → hex_field (b':' ∷ d) ≡ some (d, [])
unfolding hex_field
hex_field-end [] h = absurd h
hex_field-end (c ∷ d) h = rw (hex_run-end (c ∷ d) h)

two_fields_lem :
    (a b : Bytes) → IsField a → IsField b → two_fields (b':' ∷ (a ++ b':' ∷ b)) ≡ some (a, b)
unfolding two_fields
two_fields_lem a b ha hb = rw (hex_field-colon a b ha, two_fields) (rw (hex_field-end b hb))

request_fields :
    (c : ℕ) (a b d : Bytes)
    → IsField a
    → IsField b
    → IsField d
    → request (c ∷ b':' ∷ (a ++ b':' ∷ (b ++ b':' ∷ d)))
      ≡ some (record { fd = hex_number a; off = hex_number b; n = hex_number d })
unfolding request
request_fields c a b d ha hb hd =
    rw (hex_field-colon a (b ++ b':' ∷ d) ha, request) (rw (two_fields_lem b d hb hd))

-- Three numbers are read back.
request_numbers :
    (c fd off n : ℕ)
    → fd < 2 ^ 63
    → off < 2 ^ 63
    → n < 2 ^ 63
    → request
        (c ∷ b':' ∷ (to_hex_number fd ++ b':' ∷ (to_hex_number off ++ b':' ∷ to_hex_number n)))
      ≡ some (record { fd = fd; off = off; n = n })
request_numbers c fd off n hf ho hn =
    request_fields c (to_hex_number fd) (to_hex_number off) (to_hex_number n)
      (to_hex_number-IsField fd) (to_hex_number-IsField off) (to_hex_number-IsField n)
    ∙ rw (
      hex_number-to_hex_number fd hf,
      hex_number-to_hex_number off ho,
      hex_number-to_hex_number n hn,
    )

pub request-read_command :
    (fd off n : ℕ)
    → fd < 2 ^ 63
    → off < 2 ^ 63
    → n < 2 ^ 63
    → request (read_command (pos fd) off n) ≡ some (record { fd = fd; off = off; n = n })
unfolding signed
request-read_command fd off n hf ho hn =
    rw (hex_int64-to_hex_number off ho, hex_int64-to_hex_number n hn)
      (request_numbers b'r' fd off n hf ho hn)

pub request-write_command :
    (fd off n : ℕ)
    → fd < 2 ^ 63
    → off < 2 ^ 63
    → n < 2 ^ 63
    → request (write_command (pos fd) off n) ≡ some (record { fd = fd; off = off; n = n })
unfolding signed
request-write_command fd off n hf ho hn =
    rw (hex_int64-to_hex_number off ho, hex_int64-to_hex_number n hn)
      (request_numbers b'w' fd off n hf ho hn)

-- A path that both ends take as it is: no quote, no line end, no telnet command, no prompt in it.
abbrev pub IsPathByte : ℕ → Type 0
IsPathByte c = (c ≢ b'"') × (c ≢ 10) × (c ≢ 255) × (c ≢ b'<')

cut_once-quote :
    (path rest : Bytes)
    → All IsPathByte path
    → cut_once b'"' (path ++ b'"' ∷ rest) ≡ some (path, rest)
unfolding cut_once
cut_once-quote [] rest h = refl
cut_once-quote (c ∷ path) rest h =
    let other : (c == b'"') ≡ false = ground (arith, h.0.0) in
    rw (other, cut_once) (rw (cut_once-quote path rest h.1))

-- A path is read back.
pub open_path-open_command :
    (c : ℕ) (path : Bytes) (flags mode : ℕ)
    → All IsPathByte (c ∷ path)
    → flags < 2 ^ 63
    → mode < 2 ^ 63
    → open_path (open_command (c ∷ path) flags mode) ≡ some (c ∷ path)
unfolding open_path has_prefix
open_path-open_command c path flags mode h hf hm =
    let fields_ = b':' ∷ (to_hex_number flags ++ b':' ∷ to_hex_number mode) in
    let two =
      two_fields_lem (to_hex_number flags) (to_hex_number mode) (to_hex_number-IsField flags)
        (to_hex_number-IsField mode) in
    let found =
      ap (cut_once b'"') (append_assoc (c ∷ path) (b'"' ∷ []) fields_)
      ∙ cut_once-quote (c ∷ path) fields_ h in
    rw (hex_int64-to_hex_number flags hf, hex_int64-to_hex_number mode hm)
      (rw (found, open_path) (rw two))
