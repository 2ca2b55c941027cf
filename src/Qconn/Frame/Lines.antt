-- ===== src/Qconn/Frame/Lines.antt =====
-- Status lines, payloads, and blanks that leak behind a prompt: `readResponseLine`, `readN`.
use qnx8_qconn_mcp.Prelude.{
  ℕ, zero, suc, ◌+◌, ◌-◌, ◌≤◌, ◌<◌, ◌≡◌, ◌≢◌, refl, sym, ap, ◌∙◌, true, false, has_prefix, [], ◌∷◌,
  ◌++◌, append-nil, append_assoc, Bytes, ◌==◌, leb, length, length-append, take, drop, take-append,
  drop-append, replicate, le→leb, All, ok, arith,
}
use qnx8_qconn_mcp.Qconn.Telnet.{iac, IsPlain}
use qnx8_qconn_mcp.Qconn.Noise.{trim_left, trim_right, is_cr}
use qnx8_qconn_mcp.Qconn.Prompt.Find.{HasNoPrompt, prompt_of}
use qnx8_qconn_mcp.Qconn.Client.{Service}
use qnx8_qconn_mcp.Qconn.Frame.Response.{read_byte_plain, read_until_prompt_response}
use qnx8_qconn_mcp.Qconn.Frame.{
  FrameConn, set_input, skip_blanks, is_space, drop_buffered, read_until_prompt, read_n,
  line_rounds, read_response_line,
}

-- A data byte within a line.
abbrev pub IsLineByte : ℕ → Type 0
IsLineByte b = (b ≢ iac) × (b ≢ 10)

-- What a status line is read as.
abbrev pub line_text : Bytes → Bytes
line_text line = trim_left is_space (trim_right is_cr line)

module _ {P : Type 0} where
  line_rounds_line :
      (line rest text : Bytes) (n : ℕ) (f : FrameConn P)
      → All IsLineByte line
      → 1 ≤ f.rounds
      → f.conn.input ≡ line ++ 10 ∷ rest
      → line_rounds (length line + suc n) text f ≡ ok (line_text (text ++ line)) (set_input rest f)
  unfolding line_rounds
  line_rounds_line [] rest text n f h r e =
      let bare : 0 + suc n ≡ suc n = omega arith in
      rw (bare, append-nil text) (rw (read_byte_plain 10 rest f (omega arith) r e, line_rounds))
  line_rounds_line (b ∷ line) rest text n f h r e =
      let more : suc (length line) + suc n ≡ suc (length line + suc n) = omega arith in
      let other : (b == 10) ≡ false = ground (arith, h.0.1) in
      let s = line ++ 10 ∷ rest in
      let later = line_rounds_line line rest (text ++ b ∷ []) n (set_input s f) h.1 r refl in
      rw (more, sym (append_assoc text (b ∷ []) line))
        (rw (read_byte_plain b s f h.0.0 r e, line_rounds) (rw other later))

  -- A line is read up to its end.
  pub read_response_line_lem :
      (line rest : Bytes) (f : FrameConn P)
      → All IsLineByte line
      → length line < f.rounds
      → f.conn.input ≡ line ++ 10 ∷ rest
      → read_response_line f ≡ ok (line_text line) (set_input rest f)
  unfolding read_response_line
  read_response_line_lem line rest f h r e =
      let rounds : f.rounds ≡ length line + suc (f.rounds - suc (length line)) = omega arith in
      ap (λ n. line_rounds n [] f) rounds
      ∙ line_rounds_line line rest [] (f.rounds - suc (length line)) f h (omega arith) e

  -- A payload is read as it is.
  pub read_n_lem :
      (got rest : Bytes) (f : FrameConn P)
      → f.conn.input ≡ got ++ rest
      → read_n (length got) f ≡ ok got (set_input rest f)
  unfolding read_n
  read_n_lem got rest f e =
      let all_ : leb (length got) (length f.conn.input) ≡ true =
        le→leb _ _ (omega (arith, ap length e, length-append got rest)) in
      let first : take (length got) f.conn.input ≡ got =
        ap (take (length got)) e ∙ take-append got rest in
      let later : drop (length got) f.conn.input ≡ rest =
        ap (drop (length got)) e ∙ drop-append got rest in
      rw (all_, first, later)

-- A text that begins with no blank.
abbrev pub IsUnindented : Bytes → Type 0
IsUnindented [] = Unit
IsUnindented (c ∷ s) = (c ≢ b' ') × (c ≢ 9)

-- `g` blanks in front of a text.
abbrev pub indented : ℕ → Bytes → Bytes
indented g s = replicate g b' ' ++ s

skip_blanks-IsUnindented : (n : ℕ) (s : Bytes) → IsUnindented s → skip_blanks n s ≡ s
unfolding skip_blanks
skip_blanks-IsUnindented zero s h = refl
skip_blanks-IsUnindented (suc n) [] h = refl
skip_blanks-IsUnindented (suc n) (c ∷ s) h = ground arith

-- Of the blanks in front of a text, some are dropped.
skip_blanks-indented :
    (n g : ℕ) (s : Bytes)
    → IsUnindented s
    → (k : ℕ) × (k ≤ g) × (skip_blanks n (indented g s) ≡ indented k s)
unfolding skip_blanks
skip_blanks-indented n zero s h = (0, omega arith, skip_blanks-IsUnindented n s h)
skip_blanks-indented zero (suc g) s h = (suc g, omega arith, refl)
skip_blanks-indented (suc n) (suc g) s h =
    let (k, le, e) = skip_blanks-indented n g s h in (k, omega arith, e)

pub trim_left-indented :
    (g : ℕ) (s : Bytes) → trim_left is_space (indented g s) ≡ trim_left is_space s
unfolding trim_left
trim_left-indented zero s = refl
trim_left-indented (suc g) s = trim_left-indented g s

indented-HasNoPrompt : (g : ℕ) (s : Bytes) → HasNoPrompt s → HasNoPrompt (indented g s)
unfolding has_prefix
indented-HasNoPrompt zero s h = h
indented-HasNoPrompt (suc g) s h = (refl, indented-HasNoPrompt g s h)

pub indented-IsPlain : (g : ℕ) (s : Bytes) → All IsPlain s → All IsPlain (indented g s)
indented-IsPlain zero s h = h
indented-IsPlain (suc g) s h = (omega arith, indented-IsPlain g s h)

pub length-indented : (g : ℕ) (s : Bytes) → length (indented g s) ≡ g + length s
length-indented zero s = omega arith
length-indented (suc g) s = omega (arith, length-indented g s)

before_prompt-IsUnindented :
    (body : Bytes) (svc : Service) (rest : Bytes)
    → IsUnindented body
    → IsUnindented (body ++ (prompt_of svc ++ rest))
before_prompt-IsUnindented [] svc rest h = omega arith
before_prompt-IsUnindented (c ∷ body) svc rest h = h

-- Two responses that stand behind one another, each before its prompt.
pub record InSync {P : Type 0} (first second : Bytes) (f : FrameConn P) : Type 0 where
  pub between : FrameConn P
  pub behind : FrameConn P
  pub reads : read_until_prompt f ≡ ok (trim_left is_space first) between
  pub reads_on : read_until_prompt between ≡ ok (trim_left is_space second) behind

module _ {P : Type 0} where
  -- However many of the spaces behind a prompt are buffered when it is found, the next response
  -- is read without them: two responses without prompts or telnet commands, the first prompt
  -- followed by any number of spaces and the second response by none, are read one after the other.
  pub read_until_prompt-InSync :
      (svc svc' : Service) (body body' rest : Bytes) (g : ℕ) (f : FrameConn P)
      → All IsPlain body
      → HasNoPrompt body
      → All IsPlain body'
      → HasNoPrompt body'
      → IsUnindented body'
      → length body + length (prompt_of svc) ≤ f.rounds
      → g + length body' + length (prompt_of svc') ≤ f.rounds
      → f.conn.input ≡ body ++ (prompt_of svc ++ indented g (body' ++ (prompt_of svc' ++ rest)))
      → InSync body body' f
  unfolding drop_buffered
  read_until_prompt-InSync svc svc' body body' rest g f a b a' b' u r r' e =
      let later = body' ++ (prompt_of svc' ++ rest) in
      let gap = indented g later in
      let (k, le, left) =
        skip_blanks-indented (f.buffered f.conn.sent gap) g later
          (before_prompt-IsUnindented body' svc' rest u) in
      let between = drop_buffered (set_input gap f) in
      let assoc : indented k later ≡ indented k body' ++ (prompt_of svc' ++ rest) =
        sym (append_assoc (replicate k b' ') body' (prompt_of svc' ++ rest)) in
      let size = length-indented k body' in
      record {
        between = between;
        behind = drop_buffered (set_input rest between);
        reads = read_until_prompt_response svc body gap f a b r e;
        reads_on =
            read_until_prompt_response svc' (indented k body') rest between
              (indented-IsPlain k body' a') (indented-HasNoPrompt k body' b') (omega arith)
              (left ∙ assoc)
            ∙ ap (λ t. ok t (drop_buffered (set_input rest between))) (trim_left-indented k body');
      }
