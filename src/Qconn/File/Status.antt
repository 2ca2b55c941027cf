-- ===== src/Qconn/File/Status.antt =====
-- The status line of a read or a write: what is made of it.
use qnx8_qconn_mcp.Prelude.{
  ℕ, zero, suc, ◌^◌, ◌<◌, ◌≡◌, refl, sym, ap, ◌∙◌, true, false, [], ◌∷◌, ◌++◌, append-nil,
  append_assoc, some, Bytes, ◌==◌, lt→ltb, drop, replicate, All, All-append, codes, has_prefix,
  cut_once, pos, to_hex_number, IsHexDigit, to_hex_number-IsHexDigit, to_hex_number-cons,
  parse_hex-to_hex_number, parse_hex, number, integer, with_sign, parse_int, arith,
}
use qnx8_qconn_mcp.Qconn.Noise.{trim_left, trim_right, is_cr}
use qnx8_qconn_mcp.Qconn.Frame.{is_space}
use qnx8_qconn_mcp.Qconn.Frame.Lines.{IsLineByte, line_text, indented, trim_left-indented}
use qnx8_qconn_mcp.Qconn.File.{head_field}

-- A successful status line: the number, and whatever stands behind its colon.
abbrev pub status_line : ℕ → Bytes → Bytes
status_line n t = codes "o:" ++ (to_hex_number n ++ b':' ∷ t)

trim_right-cons :
    (c : ℕ) (s : Bytes) → is_cr c ≡ false → trim_right is_cr (c ∷ s) ≡ c ∷ trim_right is_cr s
unfolding trim_right
trim_right-cons c s h = rw h

trim_right-digits :
    (d s : Bytes) → All IsHexDigit d → trim_right is_cr (d ++ s) ≡ d ++ trim_right is_cr s
trim_right-digits [] s h = refl
trim_right-digits (c ∷ d) s h =
    trim_right-cons c (d ++ s) (ground (arith, h.0.0)) ∙ ap (◌∷◌ c) (trim_right-digits d s h.1)

trim_left-o : (s : Bytes) → trim_left is_space (b'o' ∷ s) ≡ b'o' ∷ s
unfolding trim_left
trim_left-o s = refl

-- The line is read but for carriage returns at its end.
pub line_text-status_line :
    (n : ℕ) (t : Bytes) → line_text (status_line n t) ≡ status_line n (trim_right is_cr t)
line_text-status_line n t =
    let hex = to_hex_number n in
    let rest = trim_right-digits hex (b':' ∷ t) (to_hex_number-IsHexDigit n) in
    let colon = trim_right-cons b':' t refl in
    let whole : trim_right is_cr (status_line n t) ≡ status_line n (trim_right is_cr t) =
      trim_right-cons b'o' (b':' ∷ (hex ++ b':' ∷ t)) refl
      ∙ ap (◌∷◌ b'o') (
          trim_right-cons b':' (hex ++ b':' ∷ t) refl
          ∙ ap (◌∷◌ b':') (rest ∙ ap (λ s. hex ++ s) colon)) in
    ap (trim_left is_space) whole ∙ trim_left-o _

cut_once-digits : (d t : Bytes) → All IsHexDigit d → cut_once b':' (d ++ b':' ∷ t) ≡ some (d, t)
unfolding cut_once
cut_once-digits [] t h = refl
cut_once-digits (c ∷ d) t h =
    let other : (c == b':') ≡ false = ground (arith, h.0.2) in
    rw (other, cut_once) (rw (cut_once-digits d t h.1))

-- The number is read back.
pub head_field-status_line :
    (n : ℕ) (t : Bytes) → head_field (drop 2 (status_line n t)) ≡ to_hex_number n
head_field-status_line n t =
    rw (cut_once-digits (to_hex_number n) t (to_hex_number-IsHexDigit n), head_field)

parse_int-digits :
    (c : ℕ) (s : Bytes) → IsHexDigit c → parse_int (c ∷ s) ≡ with_sign false (parse_hex (c ∷ s))
unfolding parse_int
parse_int-digits c s h = ground arith

pub parse_int-to_hex_number : (n : ℕ) → n < 2 ^ 63 → parse_int (to_hex_number n) ≡ integer (pos n)
unfolding with_sign
parse_int-to_hex_number n h =
    let (c, s, e) = to_hex_number-cons n in
    let digits : All IsHexDigit (c ∷ s) = rw e at (to_hex_number-IsHexDigit n) in
    let parsed : parse_hex (c ∷ s) ≡ number n = rw e at (parse_hex-to_hex_number n (omega arith)) in
    rw e (parse_int-digits c s digits.0 ∙ ap (with_sign false) parsed ∙ rw (lt→ltb n (2 ^ 63) h))

pub status_line-starts :
    (n : ℕ) (t : Bytes)
    → (has_prefix (status_line n t) (codes "o:") ≡ true)
      × (has_prefix (status_line n t) (codes "e:") ≡ false)
unfolding has_prefix
status_line-starts n t = (refl, refl)

IsHexDigit-IsLineByte : (c : ℕ) → IsHexDigit c → IsLineByte c
IsHexDigit-IsLineByte c h = omega arith

digits-IsLineByte : (d : Bytes) → All IsHexDigit d → All IsLineByte d
digits-IsLineByte [] h = tt
digits-IsLineByte (c ∷ d) h = (IsHexDigit-IsLineByte c h.0, digits-IsLineByte d h.1)

pub status_line-IsLineByte :
    (n : ℕ) (t : Bytes) → All IsLineByte t → All IsLineByte (status_line n t)
status_line-IsLineByte n t h = (
  omega arith,
  (
    omega arith,
    All-append IsLineByte (to_hex_number n) (b':' ∷ t)
        (digits-IsLineByte _ (to_hex_number-IsHexDigit n)) (omega arith, h),
  ),
)

trim_right-indented :
    (g : ℕ) (s : Bytes) → trim_right is_cr (indented g s) ≡ indented g (trim_right is_cr s)
trim_right-indented zero s = refl
trim_right-indented (suc g) s =
    trim_right-cons b' ' (indented g s) refl ∙ ap (◌∷◌ b' ') (trim_right-indented g s)

pub line_text-indented : (g : ℕ) (s : Bytes) → line_text (indented g s) ≡ line_text s
line_text-indented g s =
    ap (trim_left is_space) (trim_right-indented g s) ∙ trim_left-indented g (trim_right is_cr s)

pub indented-IsLineByte : (g : ℕ) (s : Bytes) → All IsLineByte s → All IsLineByte (indented g s)
indented-IsLineByte zero s h = h
indented-IsLineByte (suc g) s h = (omega arith, indented-IsLineByte g s h)

pub indented-append :
    (g : ℕ) (line rest : Bytes) → indented g [] ++ (line ++ rest) ≡ indented g line ++ rest
indented-append g line rest =
    rw (append-nil {A = ℕ} (replicate g b' ')) (sym (append_assoc (replicate g b' ') line rest))
