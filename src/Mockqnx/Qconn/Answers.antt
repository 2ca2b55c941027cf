-- ===== src/Mockqnx/Qconn/Answers.antt =====
-- What the client makes of the mock's answers: the handle of an opened file.
use qnx8_qconn_mcp.Prelude.{
  ℕ, ◌+◌, ◌^◌, ◌≤◌, ◌<◌, ◌≡◌, ◌≢◌, refl, sym, ap, ◌∙◌, true, false, [], ◌∷◌, ◌++◌, append_assoc,
  append-nil, some, Bytes, ◌==◌, length, length-append, All, All-append, codes, has_prefix, pos,
  int_value, to_hex_number, to_hex_number-cons, length-to_hex_number, same, arith,
}
use qnx8_qconn_mcp.Qconn.Noise.{
  is_nil, is_cr, is_noise, trim_left, trim_right, trim_space, first_line,
}
use qnx8_qconn_mcp.Qconn.Noise.Trim.{trim_right-append, first_line_only}
use qnx8_qconn_mcp.Qconn.Prompt.Find.{HasNoPrompt}
use qnx8_qconn_mcp.Qconn.File.{
  FileHandle, is_field_char, field_from, to_last_quote, quoted, handle_at, sized_handle,
  moded_handle, handle_of, int_of,
}
use qnx8_qconn_mcp.Qconn.File.Status.{parse_int-to_hex_number}
use qnx8_qconn_mcp.Mockqnx.Qconn.{mock_mode, open_reply}
use qnx8_qconn_mcp.Mockqnx.Qconn.Requests.{IsHex, IsPathByte, to_hex_number-IsHex}

-- A byte of a line of text: no telnet command, no line feed, no mark of a prompt.
abbrev pub IsTextByte : ℕ → Type 0
IsTextByte c = (c ≢ 255) × (c ≢ b'<') × (c ≢ 10)

-- Where no mark stands, no prompt does.
pub unmarked-HasNoPrompt : (s : Bytes) → All (λ c. c ≢ b'<') s → HasNoPrompt s
unmarked-HasNoPrompt [] h = tt
unmarked-HasNoPrompt (c ∷ s) h =
    let other : (c == b'<') ≡ false = ground (arith, h.0) in
    (unfold has_prefix in (rw other), unmarked-HasNoPrompt s h.1)

hex-All : (d : Bytes) → All IsHex d → All IsTextByte d
hex-All [] h = tt
hex-All (c ∷ d) h = ((ground (arith, h.0), ground (arith, h.0), ground (arith, h.0)), hex-All d h.1)

number-All : (n : ℕ) → All IsTextByte (to_hex_number n)
number-All n = hex-All (to_hex_number n) (to_hex_number-IsHex n)

path-All : (path : Bytes) → All IsPathByte path → All IsTextByte path
path-All [] h = tt
path-All (c ∷ path) h = ((h.0.2, h.0.3, h.0.1), path-All path h.1)

-- The mock's answer to an open, without its end.
abbrev pub open_text : ℕ → ℕ → Bytes → Bytes
open_text fd size path =
    codes "o:"
    ++ (to_hex_number fd
        ++ b':'
          ∷ (to_hex_number mock_mode
              ++ b':' ∷ (to_hex_number size ++ b':' ∷ b'"' ∷ (path ++ b'"' ∷ []))))

pub open_reply-open_text :
    (fd size : ℕ) (path : Bytes) → open_reply fd size path ≡ open_text fd size path ++ 13 ∷ 10 ∷ []
open_reply-open_text fd size path = simp append_assoc

pub open_text-All :
    (fd size : ℕ) (path : Bytes) → All IsPathByte path → All IsTextByte (open_text fd size path)
open_text-All fd size path h = (
  omega arith,
  (
    omega arith,
    All-append IsTextByte (to_hex_number fd) _ (number-All fd) (
      omega arith,
      All-append IsTextByte (to_hex_number mock_mode) _ (number-All mock_mode) (
        omega arith,
        All-append IsTextByte (to_hex_number size) _ (number-All size) (
          omega arith,
          (omega arith, All-append IsTextByte path (b'"' ∷ []) (path-All path h) (omega arith)),
        ),
      ),
    ),
  ),
)

pub length-open_text :
    (fd size : ℕ) (path : Bytes)
    → fd < 2 ^ 63
    → size < 2 ^ 63
    → length (open_text fd size path) ≤ 60 + length path
length-open_text fd size path hf hs = omega (
  arith,
  length-append (to_hex_number fd) (
      b':'
      ∷ (to_hex_number mock_mode
          ++ b':' ∷ (to_hex_number size ++ b':' ∷ b'"' ∷ (path ++ b'"' ∷ [])))),
  length-append (to_hex_number mock_mode)
      (b':' ∷ (to_hex_number size ++ b':' ∷ b'"' ∷ (path ++ b'"' ∷ []))),
  length-append (to_hex_number size) (b':' ∷ b'"' ∷ (path ++ b'"' ∷ [])),
  length-append path (b'"' ∷ []),
  length-to_hex_number fd (omega arith),
  length-to_hex_number mock_mode (omega arith),
  length-to_hex_number size (omega arith),
)

field_from-hex :
    (field d rest : Bytes)
    → All IsHex d
    → is_nil (field ++ d) ≡ false
    → field_from field (d ++ b':' ∷ rest) ≡ some (field ++ d, rest)
unfolding field_from
field_from-hex [] [] rest h n = absurd (cc)
field_from-hex (c ∷ field) [] rest h n = ap (λ t. some (t, rest)) (sym (append-nil (c ∷ field)))
field_from-hex field (c ∷ d) rest h n =
    let char : is_field_char c ≡ true = ground (arith, h.0) in
    let assoc : (field ++ c ∷ []) ++ d ≡ field ++ c ∷ d = append_assoc field (c ∷ []) d in
    rw (char, field_from)
      (field_from-hex (field ++ c ∷ []) d rest h.1 (rw assoc n) ∙ ap (λ t. some (t, rest)) assoc)

field_from-number :
    (n : ℕ) (rest : Bytes)
    → field_from [] (to_hex_number n ++ b':' ∷ rest) ≡ some (to_hex_number n, rest)
field_from-number n rest =
    let (c, s, e) = to_hex_number-cons n in
    field_from-hex [] (to_hex_number n) rest (to_hex_number-IsHex n) (rw e refl)

to_last_quote-end : (path : Bytes) → to_last_quote (path ++ b'"' ∷ []) ≡ some path
unfolding to_last_quote
to_last_quote-end [] = refl
to_last_quote-end (c ∷ path) = rw (to_last_quote-end path)

quoted_path : (c : ℕ) (path : Bytes) → quoted (b'"' ∷ (c ∷ path ++ b'"' ∷ [])) ≡ some (c ∷ path)
unfolding quoted
quoted_path c path = rw (to_last_quote-end (c ∷ path), quoted)

int_of-number : (n : ℕ) → n < 2 ^ 63 → int_of (to_hex_number n) ≡ pos n
unfolding int_value
int_of-number n h = rw (parse_int-to_hex_number n h)

-- The handle that the client makes of an answer.
abbrev pub handle : ℕ → ℕ → Bytes → FileHandle
handle fd size path = record { fd = pos fd; mode = pos mock_mode; size = pos size; path = path }

handle_at-number :
    (fd size c : ℕ) (path : Bytes)
    → fd < 2 ^ 63
    → size < 2 ^ 63
    → handle_at
        (to_hex_number fd)
        (to_hex_number mock_mode)
        (to_hex_number size)
        (b'"' ∷ (c ∷ path ++ b'"' ∷ []))
      ≡ some (handle fd size (c ∷ path))
unfolding handle_at
handle_at-number fd size c path hf hs =
    rw (quoted_path c path, handle_at)
      (rw (int_of-number fd hf, int_of-number size hs, int_of-number mock_mode (omega arith)))

sized_handle-number :
    (fd mode : Bytes) (size : ℕ) (rest : Bytes)
    → sized_handle fd mode (to_hex_number size ++ b':' ∷ rest)
      ≡ handle_at fd mode (to_hex_number size) rest
unfolding sized_handle
sized_handle-number fd mode size rest = rw (field_from-number size rest, sized_handle)

moded_handle-number :
    (fd : Bytes) (mode : ℕ) (rest : Bytes)
    → moded_handle fd (to_hex_number mode ++ b':' ∷ rest)
      ≡ sized_handle fd (to_hex_number mode) rest
unfolding moded_handle
moded_handle-number fd mode rest = rw (field_from-number mode rest, moded_handle)

pub handle_of-open_text :
    (fd size c : ℕ) (path : Bytes)
    → fd < 2 ^ 63
    → size < 2 ^ 63
    → handle_of (open_text fd size (c ∷ path)) ≡ some (handle fd size (c ∷ path))
unfolding handle_of has_prefix
handle_of-open_text fd size c path hf hs =
    let third = b'"' ∷ (c ∷ path ++ b'"' ∷ []) in
    let second = to_hex_number size ++ b':' ∷ third in
    rw (field_from-number fd (to_hex_number mock_mode ++ b':' ∷ second), handle_of)
      (moded_handle-number (to_hex_number fd) mock_mode second
        ∙ sized_handle-number (to_hex_number fd) (to_hex_number mock_mode) size third
        ∙ handle_at-number fd size c path hf hs)

no_feed : (s : Bytes) → All IsTextByte s → All (λ c. c ≢ 10) s
no_feed [] h = tt
no_feed (c ∷ s) h = (h.0.2, no_feed s h.1)

-- All but the last quote.
abbrev open_front : ℕ → ℕ → Bytes → Bytes
open_front fd size path =
    codes "o:"
    ++ (to_hex_number fd
        ++ b':' ∷ (to_hex_number mock_mode ++ b':' ∷ (to_hex_number size ++ b':' ∷ b'"' ∷ path)))

trim_right-open_text :
    (fd size : ℕ) (path : Bytes)
    → trim_right is_cr (open_text fd size path ++ 13 ∷ []) ≡ open_text fd size path
trim_right-open_text fd size path =
    let front = open_front fd size path in
    let apart : open_text fd size path ++ 13 ∷ [] ≡ front ++ b'"' ∷ 13 ∷ [] = simp append_assoc in
    let back : front ++ b'"' ∷ [] ≡ open_text fd size path = simp append_assoc in
    ap (trim_right is_cr) apart
    ∙ trim_right-append is_cr front (b'"' ∷ 13 ∷ []) (unfold trim_right in refl)
    ∙ (unfold trim_right in back)

is_noise_o : (s : Bytes) → is_noise (b'o' ∷ s) ≡ false
unfolding is_noise trim_space trim_right trim_left same
is_noise_o s = refl

-- The text of an answer is its first line.
pub first_line-open_text :
    (fd size : ℕ) (path : Bytes)
    → All IsPathByte path
    → first_line (open_text fd size path ++ 13 ∷ 10 ∷ []) ≡ open_text fd size path
first_line-open_text fd size path h =
    let text = open_text fd size path in
    let whole =
      All-append (λ c. c ≢ 10) text (13 ∷ []) (no_feed text (open_text-All fd size path h))
        (omega arith) in
    let trimmed = trim_right-open_text fd size path in
    ap first_line (sym (append_assoc text (13 ∷ []) (10 ∷ [])))
    ∙ first_line_only (text ++ 13 ∷ []) whole (ap is_noise trimmed ∙ is_noise_o _)
    ∙ trimmed
