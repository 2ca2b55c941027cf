-- ===== src/Qnxdbg/Client/Sound.antt =====
-- What `readFrame` has read when it returns.
use qnx8_qconn_mcp.Prelude.{
  ℕ, suc, ◌+◌, ◌<◌, ◌≤◌, ◌≡◌, ◌≢◌, refl, ap, ◌∙◌, [], ◌∷◌, ◌++◌, append_assoc, append-nil, Option,
  none, some, Bytes, ◌==◌, length, length-append, replicate, ok, arith, Bool-cases, Option-cases,
  inl, inr, ==_iff,
}
use qnx8_qconn_mcp.Qnxdbg.Protocol.{frame_char, checksum, unescape}
use qnx8_qconn_mcp.Qnxdbg.Client.{
  Client, skip_delims, read_content, scan_frame, split_last, verify, set_input, read_frame,
}
use qnx8_qconn_mcp.Qnxdbg.Client.Frames.{IsClear}

-- `input` is a run of delimiters, `content`, a delimiter, and `rest`.
pub record Delimited (input content rest : Bytes) : Type 0 where
  pub runs : ℕ
  pub clear : IsClear content
  pub nonempty : content ≢ []
  pub splits : input ≡ replicate runs frame_char ++ (content ++ frame_char ∷ rest)

read_content_sound :
    (acc input : Bytes) {content rest : Bytes}
    → read_content acc input ≡ some (content, rest)
    → (more : Bytes) × IsClear more × (content ≡ acc ++ more) × (input ≡ more ++ frame_char ∷ rest)
unfolding read_content
read_content_sound acc [] h = cc
read_content_sound acc (b ∷ r) {content} {rest} h = elim (Bool-cases (b == frame_char)) [
  | inl e ↦ ([], tt, ground (arith, append-nil acc), ground arith)
  | inr e ↦
      let (more, clear, this, left) = read_content_sound (acc ++ b ∷ []) r (rw e at h) in
      (b ∷ more, (ground arith, clear), this ∙ append_assoc acc (b ∷ []) more, ap (◌∷◌ b) left)
]

skip_delims_sound :
    (input : Bytes) {first : ℕ} {r : Bytes}
    → skip_delims input ≡ some (first, r)
    → (n : ℕ) × (first ≢ frame_char) × (input ≡ replicate n frame_char ++ first ∷ r)
unfolding skip_delims
skip_delims_sound [] h = cc
skip_delims_sound (b ∷ s) {first} {r} h = elim (Bool-cases (b == frame_char)) [
  | inl e ↦
      let (n, ne, this) = skip_delims_sound s (rw e at h) in
      (suc n, ne, rw ((==_iff b frame_char).0 e) (ap (◌∷◌ frame_char) this))
  | inr e ↦ (0, ground arith, ground arith)
]

pub scan_frame_sound :
    (input : Bytes) {content rest : Bytes}
    → scan_frame input ≡ some (content, rest)
    → Delimited input content rest
unfolding scan_frame
scan_frame_sound input {content} {rest} h = elim (Option-cases (skip_delims input)) [
  | inl e ↦ absurd (cc (rw (e, scan_frame) at h))
  | inr ((first, r), e) ↦
      let (n, ne, start) = skip_delims_sound input e in
      let (more, clear, this, left) = read_content_sound (first ∷ []) r (rw (e, scan_frame) at h) in
      record {
        runs = n;
        clear = rw this (ne, clear);
        nonempty = rw this (λ q. cc);
        splits = rw this (start ∙ ap (λ t. replicate n frame_char ++ first ∷ t) left);
      }
]

-- What `readFrame` has done to `c` when it returns `p` and leaves `c'`.
pub record FrameRead {P : Type 0} (c : Client P) (p : Bytes) (c' : Client P) : Type 0 where
  pub content : Bytes
  pub delimited : Delimited c.conn.input content c'.conn.input
  pub decoded : unescape content ≡ p ++ checksum p ∷ []
  pub only_input : c' ≡ set_input c'.conn.input c

split_last_sound : (b : Bytes) {p : Bytes} {l : ℕ} → split_last b ≡ some (p, l) → b ≡ p ++ l ∷ []
unfolding split_last
split_last_sound [] h = cc
split_last_sound (x ∷ []) h = ground arith
split_last_sound (x ∷ (y ∷ b)) h = elim (Option-cases (split_last (y ∷ b))) [
  | inl e ↦ absurd (cc (rw (e, split_last) at h))
  | inr ((q, m), e) ↦ ground (arith, split_last_sound (y ∷ b) e)
]

verify_sound :
    {P : Type 0} (o : Option (Bytes × ℕ)) (c : Client P) {p : Bytes} {c' : Client P}
    → verify o c ≡ ok p c'
    → (o ≡ some (p, checksum p)) × (c' ≡ c)
unfolding verify
verify_sound none c h = cc
verify_sound (some (q, cs)) c h = ground arith

-- If readFrame returns a payload, the stream began with delimiters, a non-empty run without
-- delimiters that unescapes to the payload and its right checksum, and a delimiter; what follows
-- is left in the stream, and nothing else of the client has changed.
pub read_frame_sound :
    {P : Type 0} (c : Client P) {p : Bytes} {c' : Client P}
    → read_frame c ≡ ok p c'
    → FrameRead c p c'
unfolding read_frame
read_frame_sound c {p} {c'} h = elim (Option-cases (scan_frame c.conn.input)) [
  | inl e ↦ absurd (cc (rw (e, read_frame) at h))
  | inr ((content, r), e) ↦
      let (whole, same) =
        verify_sound (split_last (unescape content)) (set_input r c) (rw (e, read_frame) at h) in
      record {
        content = content;
        delimited = rw same (scan_frame_sound c.conn.input e);
        decoded = split_last_sound (unescape content) whole;
        only_input = rw same;
      }
]

length-pos : (b : Bytes) → b ≢ [] → 0 < length b
length-pos [] h = absurd (h refl)
length-pos (x ∷ b) h = omega arith

pub Delimited-length :
    {input content rest : Bytes} → Delimited input content rest → length rest + 2 ≤ length input
Delimited-length {input} {content} {rest} d = omega (
  arith,
  ap length d.splits,
  length-pos content d.nonempty,
  length-append (replicate d.runs frame_char) (content ++ frame_char ∷ rest),
  length-append content (frame_char ∷ rest),
)

pub read_frame-length :
    {P : Type 0} (c : Client P) {p : Bytes} {c' : Client P}
    → read_frame c ≡ ok p c'
    → length c'.conn.input + 2 ≤ length c.conn.input
read_frame-length c h = Delimited-length (read_frame_sound c h).delimited
