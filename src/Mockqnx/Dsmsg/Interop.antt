-- ===== src/Mockqnx/Dsmsg/Interop.antt =====
-- The mock's framing is the client's: what one side writes, the other reads.
use qnx8_qconn_mcp.Prelude.{
  ℕ, zero, suc, ◌+◌, ◌%◌, ◌≡◌, refl, sym, ap, ◌∙◌, [], ◌∷◌, ◌++◌, append-nil, none, some, Bytes,
  AreBytes, length, arith, Option-cases, inl, inr,
}
use mathlib.Core.Path.{subst}
use qnx8_qconn_mcp.Qnxdbg.Protocol.{frame, escape_byte, escape, unescape, checksum, sum_from}
use qnx8_qconn_mcp.Qnxdbg.Client.{skip_delims, read_content, scan_frame}
use qnx8_qconn_mcp.Qnxdbg.Client.Frames.{content_of, scan_frame-frame, unescape-content_of}
use qnx8_qconn_mcp.Mockqnx.Dsmsg.{
  cksum_from, cksum, esc, written, unesc, first_byte, to_delim, all_but_last, next_frame, Server,
  handle, serve, react,
}

cksum_from-sum_from : (s : ℕ) (b : Bytes) → cksum_from s b ≡ sum_from s b
unfolding cksum_from sum_from
cksum_from-sum_from s [] = refl
cksum_from-sum_from s (c ∷ b) = cksum_from-sum_from ((s + c) % 256) b

esc-escape : (b : Bytes) → esc b ≡ escape b
unfolding esc escape
esc-escape [] = refl
esc-escape (c ∷ b) = ap (◌++◌ (escape_byte c)) (esc-escape b)

-- The mock writes the frames of `frame`.
pub written-frame : (p : Bytes) → written p ≡ frame p
unfolding written frame cksum
written-frame p = rw (cksum_from-sum_from 0 p, esc-escape p, esc-escape (checksum p ∷ []))

unesc-unescape : (b : Bytes) → unesc b ≡ unescape b
unfolding unesc unescape
unesc-unescape [] = refl
unesc-unescape (c ∷ []) = refl
unesc-unescape (c ∷ (d ∷ b)) = ground (arith, unesc-unescape b, unesc-unescape (d ∷ b))

first_byte-skip_delims : (b : Bytes) → first_byte b ≡ skip_delims b
unfolding first_byte skip_delims
first_byte-skip_delims [] = refl
first_byte-skip_delims (c ∷ b) = ground (arith, first_byte-skip_delims b)

to_delim-read_content : (acc b : Bytes) → to_delim acc b ≡ read_content acc b
unfolding to_delim read_content
to_delim-read_content acc [] = refl
to_delim-read_content acc (c ∷ b) = ground (arith, to_delim-read_content (acc ++ c ∷ []) b)

all_but_last_lem : (p : Bytes) (c : ℕ) → all_but_last (p ++ c ∷ []) ≡ p
unfolding all_but_last
all_but_last_lem [] c = refl
all_but_last_lem (x ∷ []) c = refl
all_but_last_lem (x ∷ (y ∷ p)) c = ap (◌∷◌ x) (all_but_last_lem (y ∷ p) c)

next_frame-scan_frame :
    (b : Bytes) {content rest : Bytes}
    → scan_frame b ≡ some (content, rest)
    → next_frame b ≡ some (all_but_last (unesc content), rest)
unfolding next_frame scan_frame
next_frame-scan_frame b h = elim (Option-cases (skip_delims b)) [
  | inl e ↦ absurd (cc (rw (e, scan_frame) at h))
  | inr ((first, r), e) ↦
      let content_read = to_delim-read_content (first ∷ []) r ∙ (rw (e, scan_frame) at h) in
      rw (first_byte-skip_delims b ∙ e, next_frame) (rw (content_read, next_frame))
]

-- The mock reads a frame of the client's.
pub next_frame-frame : (p rest : Bytes) → AreBytes p → next_frame (frame p ++ rest) ≡ some (p, rest)
next_frame-frame p rest h =
    next_frame-scan_frame (frame p ++ rest) (scan_frame-frame 0 p rest h)
    ∙ rw (unesc-unescape (content_of p), unescape-content_of p h, all_but_last_lem p (checksum p))

next_frame-nil : next_frame [] ≡ none
unfolding next_frame first_byte
next_frame-nil = refl

serve_idle : (n : ℕ) (s : Server) → s.buffer ≡ [] → serve n s ≡ (s, [])
unfolding serve
serve_idle zero s h = refl
serve_idle (suc n) s h = rw (ap next_frame h ∙ next_frame-nil, serve)

serve_one :
    (n : ℕ) (s : Server) (p : Bytes)
    → next_frame s.buffer ≡ some (p, [])
    → (handle p (record s { buffer = [] })).0.buffer ≡ []
    → serve (suc n) s ≡ handle p (record s { buffer = [] })
unfolding serve
serve_one n s p e still =
    rw (e, serve)
      (rw (
        serve_idle n (handle p (record s { buffer = [] })).0 still,
        append-nil (handle p (record s { buffer = [] })).1,
      ))

length-frame : (p : Bytes) → (k : ℕ) × (length (frame p) ≡ suc k)
unfolding frame
length-frame p = (_, refl)

-- A server with an empty buffer answers one whole frame by what `handle` makes of its payload.
pub react-frame :
    (s : Server) (p : Bytes)
    → AreBytes p
    → s.buffer ≡ []
    → (handle p s).0.buffer ≡ []
    → react s (frame p) ≡ handle p s
unfolding react
react-frame s p h idle still =
    let (k, len) = length-frame p in
    let whole : next_frame (frame p) ≡ some (p, []) = rw append-nil at (next_frame-frame p [] h) in
    let same = ap (λ b. handle p (record s { buffer = b })) idle in
    let still' = subst (λ b. (handle p (record s { buffer = b })).0.buffer ≡ []) idle still in
    ap (λ b. serve (length (b ++ frame p)) (record s { buffer = b ++ frame p })) idle
    ∙ rw len (serve_one k (record s { buffer = frame p }) p whole still')
    ∙ sym same
