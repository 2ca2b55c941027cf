-- ===== src/Qnxdbg/Client/Frames.antt =====
-- `readFrame` against the frames that `frame` writes.
use qnx8_qconn_mcp.Prelude.{
  ℕ, zero, suc, ◌≡◌, ◌≢◌, refl, sym, ap, ◌∙◌, [], ◌∷◌, ◌++◌, append_assoc, append-nil, some, Bytes,
  IsByte, AreBytes, ◌==◌, All, All-append, replicate, ok, arith, Bool-cases, bit_xor, ◌||◌, inl,
  inr, ==_refl,
}
use qnx8_qconn_mcp.Qnxdbg.Protocol.{
  frame_char, esc_char, checksum, escape_byte, escape, unescape, frame,
}
use qnx8_qconn_mcp.Qnxdbg.Protocol.Escape.{
  IsContent, checksum-IsByte, escape-append, unescape-escape, escape-IsContent,
}
use qnx8_qconn_mcp.Qnxdbg.Client.{
  Client, skip_delims, read_content, scan_frame, split_last, verify, set_input, read_frame,
}

abbrev pub IsClear : Bytes → Type 0
IsClear = All (λ c. c ≢ frame_char)

read_content_lem :
    (acc content rest : Bytes)
    → IsClear content
    → read_content acc (content ++ frame_char ∷ rest) ≡ some (acc ++ content, rest)
unfolding read_content
read_content_lem acc [] rest h = ground (arith, append-nil acc)
read_content_lem acc (c ∷ content) rest h =
    ground
      (arith, read_content_lem (acc ++ c ∷ []) content rest h.1, append_assoc acc (c ∷ []) content)

skip_delims_lem :
    (n c : ℕ) (r : Bytes)
    → c ≢ frame_char
    → skip_delims (replicate n frame_char ++ c ∷ r) ≡ some (c, r)
unfolding skip_delims
skip_delims_lem zero c r h = ground arith
skip_delims_lem (suc n) c r h = skip_delims_lem n c r h

-- A scan takes what stands between runs of delimiters.
pub scan_frame_lem :
    (n c : ℕ) (content rest : Bytes)
    → IsClear (c ∷ content)
    → scan_frame (replicate n frame_char ++ c ∷ (content ++ frame_char ∷ rest))
      ≡ some (c ∷ content, rest)
unfolding scan_frame
scan_frame_lem n c content rest h =
    rw (skip_delims_lem n c (content ++ frame_char ∷ rest) h.0, scan_frame)
      (read_content_lem (c ∷ []) content rest h.1)

pub split_last_lem : (p : Bytes) (c : ℕ) → split_last (p ++ c ∷ []) ≡ some (p, c)
unfolding split_last
split_last_lem [] c = refl
split_last_lem (x ∷ []) c = refl
split_last_lem (x ∷ (y ∷ p)) c = ground (arith, split_last_lem (y ∷ p) c)

-- The content that `frame` puts between its delimiters.
abbrev pub content_of : Bytes → Bytes
content_of p = escape p ++ escape (checksum p ∷ [])

content_of-escape : (p : Bytes) → content_of p ≡ escape (p ++ checksum p ∷ [])
content_of-escape p = sym (escape-append p (checksum p ∷ []))

pub All-IsClear : (b : Bytes) → All IsContent b → IsClear b
All-IsClear [] h = tt
All-IsClear (c ∷ b) h = (h.0.0, All-IsClear b h.1)

pub content_of-IsContent : (p : Bytes) → AreBytes p → All IsContent (content_of p)
content_of-IsContent p h =
    rw (content_of-escape p)
      (escape-IsContent _ (All-append IsByte p (checksum p ∷ []) h (checksum-IsByte p, tt)))

pub unescape-content_of : (p : Bytes) → AreBytes p → unescape (content_of p) ≡ p ++ checksum p ∷ []
unescape-content_of p h =
    rw (content_of-escape p)
      (unescape-escape _ (All-append IsByte p (checksum p ∷ []) h (checksum-IsByte p, tt)))

escape-ne : (x : ℕ) (p : Bytes) → (c : ℕ) × (r : Bytes) × (escape (x ∷ p) ≡ c ∷ r)
unfolding escape
escape-ne x p = elim (Bool-cases (x == frame_char || x == esc_char)) [
  | inl e ↦ (esc_char, bit_xor x 0x20 ∷ escape p, rw (e, escape_byte))
  | inr e ↦ (x, escape p, rw (e, escape_byte))
]

pub content_of-ne : (p : Bytes) → (c : ℕ) × (r : Bytes) × (content_of p ≡ c ∷ r)
unfolding escape
content_of-ne [] = escape-ne (checksum []) []
content_of-ne (x ∷ p) =
    let (c, r, e) = escape-ne x (p ++ checksum (x ∷ p) ∷ []) in
    (c, r, content_of-escape (x ∷ p) ∙ e)

pub frame-content_of :
    (p rest : Bytes) → frame p ++ rest ≡ frame_char ∷ (content_of p ++ frame_char ∷ rest)
unfolding frame
frame-content_of p rest = simp append_assoc

replicate-cons :
    (n : ℕ) (r : Bytes)
    → replicate n frame_char ++ frame_char ∷ r ≡ replicate (suc n) frame_char ++ r
replicate-cons zero r = refl
replicate-cons (suc n) r = ap (◌∷◌ frame_char) (replicate-cons n r)

-- The scan of a stream that begins with a frame, whatever delimiters stand before it.
pub scan_frame-frame :
    (n : ℕ) (p rest : Bytes)
    → AreBytes p
    → scan_frame (replicate n frame_char ++ (frame p ++ rest)) ≡ some (content_of p, rest)
scan_frame-frame n p rest h =
    let (c, r, e) = content_of-ne p in
    let clear : IsClear (c ∷ r) = rw e at (All-IsClear _ (content_of-IsContent p h)) in
    rw (frame-content_of p rest, replicate-cons n, e) (scan_frame_lem (suc n) c r rest clear)

-- A frame is read back: the payload is returned, and what follows it is left in the stream.
pub read_frame-frame :
    {P : Type 0} (n : ℕ) (p rest : Bytes) (c : Client P)
    → AreBytes p
    → c.conn.input ≡ replicate n frame_char ++ (frame p ++ rest)
    → read_frame c ≡ ok p (set_input rest c)
unfolding read_frame verify
read_frame-frame n p rest c h e = ground (
  arith,
  scan_frame-frame n p rest h,
  unescape-content_of p h,
  split_last_lem p (checksum p),
  ==_refl (checksum p),
)
