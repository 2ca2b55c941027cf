-- ===== src/Qnxdbg/Scanner/Chunks.antt =====
-- The scanner finds the same frames however the stream is cut into chunks.
use qnx8_qconn_mcp.Prelude.{
  ◌+◌, ◌-◌, ◌≤◌, ◌≡◌, refl, sym, ap, ◌∙◌, List, [], ◌∷◌, ◌++◌, append_assoc, append-nil, Bytes,
  AreBytes, ◌==◌, leb, length, length-append, take-append, le→leb, ne→==, All, All-append, arith,
  Bool-cases, inl, inr,
}
use qnx8_qconn_mcp.Qnxdbg.Protocol.{frame_char, frame, unescape, checksum}
use qnx8_qconn_mcp.Qnxdbg.Client.Frames.{
  IsClear, content_of, content_of-ne, content_of-IsContent, All-IsClear, frame-content_of,
  unescape-content_of,
}
use qnx8_qconn_mcp.Qnxdbg.Client.Replies.{frames_of}
use qnx8_qconn_mcp.Qnxdbg.Scanner.{Fed, add_frame, feed}
use qnx8_qconn_mcp.Qnxdbg.Scanner.Scan.{scan, feed-scan}

-- What two calls return together, the second one made with the buffer of the first.
abbrev pub joined : Fed → Fed → Fed
joined f g = record { buf = g.buf; payloads = f.payloads ++ g.payloads; raws = f.raws ++ g.raws }

-- One call for each chunk.
abbrev pub feed_all : Bytes → List Bytes → Fed
feed_all buf [] = record { buf = buf; payloads = []; raws = [] }
feed_all buf (c ∷ cs) = joined (feed buf c) (feed_all (feed buf c).buf cs)

abbrev pub concat : List Bytes → Bytes
concat [] = []
concat (c ∷ cs) = c ++ concat cs

add_frame-joined :
    (content : Bytes) (f g : Fed) → add_frame content (joined f g) ≡ joined (add_frame content f) g
unfolding add_frame
add_frame-joined content f g = elim (Bool-cases (leb 1 (length (unescape content)))) [
  | inl e ↦ rw e
  | inr e ↦ rw e
]

add_frame-buf : (content : Bytes) (f : Fed) → (add_frame content f).buf ≡ f.buf
unfolding add_frame
add_frame-buf content f = ground arith

-- What the automaton has open holds no delimiter.
scan-IsClear : (acc s : Bytes) → IsClear acc → IsClear (scan acc s).buf
scan-IsClear acc [] h = h
scan-IsClear [] (c ∷ s) h = elim (Bool-cases (c == frame_char)) [
  | inl e ↦ rw e (scan-IsClear [] s tt)
  | inr e ↦ rw e (scan-IsClear (c ∷ []) s (ground arith, tt))
]
scan-IsClear (a ∷ acc) (c ∷ s) h = elim (Bool-cases (c == frame_char)) [
  | inl e ↦ rw (e, add_frame-buf (a ∷ acc) (scan [] s)) (scan-IsClear [] s tt)
  | inr e ↦
      rw e (
        scan-IsClear (a ∷ (acc ++ c ∷ [])) s
          (h.0, All-append _ acc (c ∷ []) h.1 (ground arith, tt)))
]

-- The automaton goes on where it stopped.
scan_onwards : (acc a b : Bytes) → scan acc (a ++ b) ≡ joined (scan acc a) (scan (scan acc a).buf b)
scan_onwards acc [] b = refl
scan_onwards [] (c ∷ a) b = elim (Bool-cases (c == frame_char)) [
  | inl e ↦ rw e (scan_onwards [] a b)
  | inr e ↦ rw e (scan_onwards (c ∷ []) a b)
]
scan_onwards (x ∷ acc) (c ∷ a) b = elim (Bool-cases (c == frame_char)) [
  | inl e ↦
      rw (e, add_frame-buf (x ∷ acc) (scan [] a))
        (ap (add_frame (x ∷ acc)) (scan_onwards [] a b)
          ∙ add_frame-joined (x ∷ acc) (scan [] a) (scan (scan [] a).buf b))
  | inr e ↦ rw e (scan_onwards (x ∷ (acc ++ c ∷ [])) a b)
]

-- An open frame is what has been read of it.
scan_clear : (acc x s : Bytes) → IsClear x → scan acc (x ++ s) ≡ scan (acc ++ x) s
scan_clear acc [] s h = rw (append-nil acc)
scan_clear [] (c ∷ x) s h = rw (ne→== c frame_char h.0) (scan_clear (c ∷ []) x s h.1)
scan_clear (a ∷ acc) (c ∷ x) s h =
    rw (ne→== c frame_char h.0)
      (scan_clear (a ∷ (acc ++ c ∷ [])) x s h.1 ∙ rw (append_assoc acc (c ∷ []) x))

feed_clear : (buf bytes : Bytes) → IsClear buf → feed buf bytes ≡ scan buf bytes
feed_clear buf bytes h = feed-scan buf bytes ∙ scan_clear [] buf bytes h

-- Feeding a stream in chunks finds the same payloads and frames, and leaves the same partial
-- frame, as feeding it at once, if the buffer holds no delimiter, as every call leaves it.
pub feed_all-feed :
    (buf : Bytes) (chunks : List Bytes)
    → IsClear buf
    → feed_all buf chunks ≡ feed buf (concat chunks)
feed_all-feed buf [] h = sym (feed_clear buf [] h)
feed_all-feed buf (c ∷ cs) h =
    let still : IsClear (feed buf c).buf = rw (feed_clear buf c h) (scan-IsClear buf c h) in
    ap (joined (feed buf c))
      (feed_all-feed (feed buf c).buf cs still ∙ feed_clear (feed buf c).buf (concat cs) still)
    ∙ rw (feed_clear buf c h) (sym (scan_onwards buf c (concat cs)))
    ∙ sym (feed_clear buf (c ++ concat cs) h)

add_frame-content_of :
    (p : Bytes) (f : Fed) → AreBytes p → (add_frame (content_of p) f).payloads ≡ p ∷ f.payloads
unfolding add_frame
add_frame-content_of p f h =
    let size : length (p ++ checksum p ∷ []) ≡ length p + 1 = length-append p (checksum p ∷ []) in
    let whole : length p + 1 - 1 ≡ length p = omega arith in
    let some_ : 1 ≤ length p + 1 = omega arith in
    rw (unescape-content_of p h, size, le→leb 1 _ some_, whole, take-append p (checksum p ∷ []))

scan-frame :
    (p rest : Bytes)
    → AreBytes p
    → scan [] (frame p ++ rest) ≡ add_frame (content_of p) (scan [] rest)
scan-frame p rest h =
    let (c, r, e) = content_of-ne p in
    let clear : IsClear (c ∷ r) = rw e at (All-IsClear _ (content_of-IsContent p h)) in
    rw (frame-content_of p rest, e) (scan_clear [] (c ∷ r) (frame_char ∷ rest) clear)

scan-frames_of :
    (ps : List Bytes)
    → All AreBytes ps
    → ((scan [] (frames_of ps)).payloads ≡ ps) × ((scan [] (frames_of ps)).buf ≡ [])
scan-frames_of [] h = (refl, refl)
scan-frames_of (p ∷ ps) h =
    let (found, rest) = scan-frames_of ps h.1 in
    let f = scan [] (frames_of ps) in
    rw (scan-frame p (frames_of ps) h.0)
      (add_frame-content_of p f h.0 ∙ ap (◌∷◌ p) found, add_frame-buf (content_of p) f ∙ rest)

-- However the frames of some payloads of bytes are cut into chunks, feeding the chunks one after
-- the other finds exactly these payloads, in order, and leaves nothing in the buffer.
pub feed_all-frames_of :
    (ps chunks : List Bytes)
    → All AreBytes ps
    → concat chunks ≡ frames_of ps
    → ((feed_all [] chunks).payloads ≡ ps) × ((feed_all [] chunks).buf ≡ [])
feed_all-frames_of ps chunks h e =
    rw (feed_all-feed [] chunks tt ∙ feed_clear [] (concat chunks) tt ∙ ap (scan []) e)
      (scan-frames_of ps h)
