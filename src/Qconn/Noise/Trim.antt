-- ===== src/Qconn/Noise/Trim.antt =====
-- internal/qconn/framing.go: `strings.TrimRight` behind a text, and the only line of a response.
use qnx8_qconn_mcp.Prelude.{
  ℕ, ◌≡◌, ◌≢◌, refl, Bool, false, [], ◌∷◌, ◌++◌, Bytes, ◌==◌, All, cut_at, split, arith,
}
use qnx8_qconn_mcp.Qconn.Noise.{is_nil, is_cr, is_noise, trim_right, first_of, first_line}

is_nil-append : (s t : Bytes) → is_nil t ≡ false → is_nil (s ++ t) ≡ false
is_nil-append [] t h = h
is_nil-append (c ∷ s) t h = refl

-- What is left of a text's end is left behind any text.
pub trim_right-append :
    (p : ℕ → Bool) (s t : Bytes)
    → is_nil (trim_right p t) ≡ false
    → trim_right p (s ++ t) ≡ s ++ trim_right p t
unfolding trim_right
trim_right-append p [] t h = refl
trim_right-append p (c ∷ s) t h =
    rw (trim_right-append p s t h) (rw (is_nil-append s (trim_right p t) h) (ground arith))

cut_at_line :
    (line : Bytes) → All (λ c. c ≢ 10) line → cut_at 10 (line ++ 10 ∷ []) ≡ (line, [] ∷ [])
unfolding cut_at
cut_at_line [] h = refl
cut_at_line (c ∷ line) h =
    let other : (c == 10) ≡ false = ground (arith, h.0) in rw (cut_at_line line h.1, other)

-- The only line of a response is its first line, unless it is noise.
pub first_line_only :
    (line : Bytes)
    → All (λ c. c ≢ 10) line
    → is_noise (trim_right is_cr line) ≡ false
    → first_line (line ++ 10 ∷ []) ≡ trim_right is_cr line
unfolding first_line first_of split
first_line_only line h e = rw (cut_at_line line h, split) (rw e)
