-- ===== src/Qnxdbg/Scanner/Scan.antt =====
-- The loop of the scanner is an automaton over the bytes.
use qnx8_qconn_mcp.Prelude.{
  ℕ, zero, suc, ◌<◌, ◌≤◌, ◌≡◌, refl, sym, ap, ◌∙◌, false, [], ◌∷◌, ◌++◌, append_assoc, append-nil,
  none, some, Bytes, ◌==◌, if◌then◌else◌, length, arith, Bool-cases, Option-cases, inl, inr, ◌⊎◌,
}
use qnx8_qconn_mcp.Qnxdbg.Protocol.{frame_char}
use qnx8_qconn_mcp.Qnxdbg.Scanner.{Fed, drop_delims, to_close, add_frame, extract, feed}

-- The scanner as an automaton that takes one byte after the other: `acc` is the content of the
-- frame that is open.
abbrev pub scan : Bytes → Bytes → Fed
scan acc [] = record { buf = acc; payloads = []; raws = [] }
scan [] (c ∷ s) = if c == frame_char then scan [] s else scan (c ∷ []) s
scan (a ∷ acc) (c ∷ s) =
    if c == frame_char then add_frame (a ∷ acc) (scan [] s) else scan (a ∷ (acc ++ c ∷ [])) s

scan-drop_delims : (s : Bytes) → scan [] s ≡ scan [] (drop_delims s)
unfolding drop_delims
scan-drop_delims [] = refl
scan-drop_delims (c ∷ s) = elim (Bool-cases (c == frame_char)) [
  | inl e ↦ rw e (scan-drop_delims s)
  | inr e ↦ rw e (rw e)
]

scan_open :
    (a : ℕ) (acc s : Bytes)
    → to_close s ≡ none
    → scan (a ∷ acc) s ≡ record { buf = a ∷ (acc ++ s); payloads = []; raws = [] }
unfolding to_close
scan_open a acc [] h = rw (append-nil acc)
scan_open a acc (c ∷ s) h = elim (Bool-cases (c == frame_char)) [
  | inl e ↦ absurd (cc (rw (e, to_close) at h))
  | inr e ↦ elim (Option-cases (to_close s)) [
    | inl q ↦ rw e (scan_open a (acc ++ c ∷ []) s q ∙ rw (append_assoc acc (c ∷ []) s))
    | inr ((content, r), q) ↦ absurd (cc (rw (e, to_close, q) at h))
  ]
]

scan_closed :
    (a : ℕ) (acc s : Bytes) {content r : Bytes}
    → to_close s ≡ some (content, r)
    → scan (a ∷ acc) s ≡ add_frame (a ∷ (acc ++ content)) (scan [] r)
unfolding to_close
scan_closed a acc [] h = cc
scan_closed a acc (c ∷ s) {content} {r} h = elim (Bool-cases (c == frame_char)) [
  | inl e ↦
      let same : some ([], c ∷ s) ≡ some (content, r) = rw (e, to_close) at h in
      let none_left : [] ≡ content = cc in
      let here : c ∷ s ≡ r = cc in rw (e, sym none_left, sym here, append-nil acc) (rw e)
  | inr e ↦ elim (Option-cases (to_close s)) [
    | inl q ↦ absurd (cc (rw (e, to_close, q) at h))
    | inr ((content', r'), q) ↦
        let same : some (c ∷ content', r') ≡ some (content, r) = rw (e, to_close, q) at h in
        let longer : c ∷ content' ≡ content = cc in
        let here : r' ≡ r = cc in
        rw (e, sym longer, sym here)
          (scan_closed a (acc ++ c ∷ []) s q ∙ rw (append_assoc acc (c ∷ []) content'))
  ]
]

to_close-length :
    (s : Bytes) {content r : Bytes} → to_close s ≡ some (content, r) → length r ≤ length s
unfolding to_close
to_close-length [] h = cc
to_close-length (c ∷ s) {content} {r} h = elim (Bool-cases (c == frame_char)) [
  | inl e ↦
      let same : some ([], c ∷ s) ≡ some (content, r) = rw (e, to_close) at h in
      let here : c ∷ s ≡ r = cc in omega (arith, ap length here)
  | inr e ↦ elim (Option-cases (to_close s)) [
    | inl q ↦ absurd (cc (rw (e, to_close, q) at h))
    | inr ((content', r'), q) ↦
        let same : some (c ∷ content', r') ≡ some (content, r) = rw (e, to_close, q) at h in
        let here : r' ≡ r = cc in omega (arith, ap length here, to_close-length s q)
  ]
]

drop_delims-length : (s : Bytes) → length (drop_delims s) ≤ length s
unfolding drop_delims
drop_delims-length [] = omega arith
drop_delims-length (c ∷ s) = ground (arith, drop_delims-length s)

-- What the scanner stands at behind the delimiters is none.
drop_delims-clear :
    (s : Bytes) {c : ℕ} {r : Bytes} → drop_delims s ≡ c ∷ r → (c == frame_char) ≡ false
unfolding drop_delims
drop_delims-clear [] h = cc
drop_delims-clear (d ∷ s) {c} {r} h = elim (Bool-cases (d == frame_char)) [
  | inl e ↦ drop_delims-clear s (rw (e, drop_delims) at h)
  | inr e ↦
      let same : d ∷ s ≡ c ∷ r = rw (e, drop_delims) at h in
      let here : d ≡ c = cc in rw (sym here) e
]

List-cases : (l : Bytes) → (l ≡ []) ⊎ ((c : ℕ) × (s : Bytes) × (l ≡ c ∷ s))
List-cases [] = inl refl
List-cases (c ∷ s) = inr (c, s, refl)

-- One round at a frame that is not closed, and at one that is.
extract_open :
    (fuel : ℕ) (buf : Bytes) (c : ℕ) (s : Bytes)
    → drop_delims buf ≡ c ∷ s
    → to_close s ≡ none
    → extract (suc fuel) buf ≡ record { buf = c ∷ s; payloads = []; raws = [] }
unfolding extract to_close
extract_open fuel buf c s e q = rw (e, extract) (rw (drop_delims-clear buf e, q))

extract_closed :
    (fuel : ℕ) (buf : Bytes) (c : ℕ) (s content r : Bytes)
    → drop_delims buf ≡ c ∷ s
    → to_close s ≡ some (content, r)
    → extract (suc fuel) buf ≡ add_frame (c ∷ content) (extract fuel r)
unfolding extract to_close
extract_closed fuel buf c s content r e q = rw (e, extract) (rw (drop_delims-clear buf e, q))

scan-start :
    (buf : Bytes) (c : ℕ) (s : Bytes) → drop_delims buf ≡ c ∷ s → scan [] buf ≡ scan (c ∷ []) s
scan-start buf c s e = scan-drop_delims buf ∙ rw e (rw (drop_delims-clear buf e))

-- The loop is the automaton, if its fuel exceeds the bytes that are there.
pub extract-scan : (fuel : ℕ) (buf : Bytes) → length buf < fuel → extract fuel buf ≡ scan [] buf
extract-scan zero buf h = absurd (omega arith)
extract-scan (suc fuel) buf h = elim (List-cases (drop_delims buf)) [
  | inl e ↦ unfold extract in rw (e, extract) (sym (scan-drop_delims buf ∙ rw e))
  | inr (c, s, e) ↦ elim (Option-cases (to_close s)) [
    | inl q ↦ extract_open fuel buf c s e q ∙ sym (scan-start buf c s e ∙ scan_open c [] s q)
    | inr ((content, r), q) ↦
        let shorter : length r < fuel =
          omega (arith, to_close-length s q, drop_delims-length buf, ap length e) in
        extract_closed fuel buf c s content r e q
        ∙ ap (add_frame (c ∷ content)) (extract-scan fuel r shorter)
        ∙ sym (scan-start buf c s e ∙ scan_closed c [] s q)
  ]
]

pub feed-scan : (buf bytes : Bytes) → feed buf bytes ≡ scan [] (buf ++ bytes)
unfolding feed
feed-scan buf bytes = extract-scan (suc (length (buf ++ bytes))) (buf ++ bytes) (omega arith)
