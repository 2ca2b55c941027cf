-- ===== src/Qconn/Frame/Response.antt =====
-- A response and the prompt behind it: `readUntilPrompt`.
use qnx8_qconn_mcp.Prelude.{
  ℕ, suc, ◌+◌, ◌-◌, ◌≤◌, ◌≡◌, ◌≢◌, ◌⊎◌, refl, sym, ap, ◌∙◌, false, [], ◌∷◌, ◌++◌, append-nil,
  append_assoc, none, Bytes, ltb, length, take, drop, take-append_le, drop-append_le, length-append,
  take-append-drop, All, ok, codes, arith, Bool-cases, inl, inr,
}
use qnx8_qconn_mcp.Qconn.Telnet.{iac, IsPlain}
use qnx8_qconn_mcp.Qconn.Noise.{trim_left}
use qnx8_qconn_mcp.Qconn.Prompt.{before_prompt}
use qnx8_qconn_mcp.Qconn.Prompt.Find.{
  HasNoPrompt, prompt_of, before_prompt-HasNoPrompt, HasNoPrompt-drop, HasNoPrompt-first,
  before_prompt-prompt_of,
}
use qnx8_qconn_mcp.Qconn.Client.{Service, broker, launcher, file, cntl, sinfo, service_name}
use qnx8_qconn_mcp.Qconn.Frame.{
  FrameConn, set_input, next_byte, byte_rounds, read_byte, is_space, may_end, drop_buffered,
  prompt_rounds, read_until_prompt,
}

module _ {P : Type 0} where
  pub byte_rounds_plain :
      (n b : ℕ) (s : Bytes) (f : FrameConn P)
      → b ≢ iac
      → f.conn.input ≡ b ∷ s
      → byte_rounds (suc n) f ≡ ok b (set_input s f)
  unfolding byte_rounds next_byte
  byte_rounds_plain n b s f h e = rw (e, byte_rounds) (ground arith)

  -- A data byte is returned.
  pub read_byte_plain :
      (b : ℕ) (s : Bytes) (f : FrameConn P)
      → b ≢ iac
      → 1 ≤ f.rounds
      → f.conn.input ≡ b ∷ s
      → read_byte f ≡ ok b (set_input s f)
  unfolding read_byte
  read_byte_plain b s f h r e =
      let some_ : f.rounds ≡ suc (f.rounds - 1) = omega arith in
      ap (λ n. byte_rounds n f) some_ ∙ byte_rounds_plain (f.rounds - 1) b s f h e

  -- One round at a byte that ends no prompt.
  round_later :
      (n b : ℕ) (s text : Bytes) (scan : ℕ) (f : FrameConn P)
      → read_byte f ≡ ok b (set_input s f)
      → (may_end b ≡ false) ⊎ (before_prompt (drop scan (text ++ b ∷ [])) ≡ none)
      → scan ≤ length text
      → (scan' : ℕ) × (scan' ≤ length (text ++ b ∷ []))
        × (prompt_rounds (suc n) text scan f
            ≡ prompt_rounds n (text ++ b ∷ []) scan' (set_input s f))
  unfolding prompt_rounds
  round_later n b s text scan f e (inl h) le =
      (scan, omega (arith, length-append text (b ∷ [])), rw (e, prompt_rounds) (rw h))
  round_later n b s text scan f e (inr h) le =
      let text' = text ++ b ∷ [] in
      let longer : length text' ≡ length text + 1 = length-append text (b ∷ []) in
      elim (Bool-cases (may_end b)) [
        | inr m ↦ (scan, omega arith, rw (e, prompt_rounds) (rw m))
        | inl m ↦ elim (Bool-cases (ltb 256 (length text'))) [
          | inl l ↦ (length text' - 64, omega arith, rw (e, prompt_rounds) (rw (m, h, l)))
          | inr l ↦ (scan, omega arith, rw (e, prompt_rounds) (rw (m, h, l)))
        ]
      ]

-- A byte that is no command and ends no prompt.
abbrev IsQuiet : ℕ → Type 0
IsQuiet b = (b ≢ iac) × (may_end b ≡ false)

module _ {P : Type 0} where
  rounds_quiet :
      (s rest text : Bytes) (scan n : ℕ) (f : FrameConn P)
      → All IsQuiet s
      → 1 ≤ f.rounds
      → f.conn.input ≡ s ++ rest
      → prompt_rounds (length s + n) text scan f
        ≡ prompt_rounds n (text ++ s) scan (set_input rest f)
  unfolding prompt_rounds
  rounds_quiet [] rest text scan n f h r e =
      let bare : 0 + n ≡ n = omega arith in
      rw (bare, append-nil text) (ap (λ t. prompt_rounds n text scan (set_input t f)) e)
  rounds_quiet (b ∷ s) rest text scan n f h r e =
      let more : suc (length s) + n ≡ suc (length s + n) = omega arith in
      let read = read_byte_plain b (s ++ rest) f h.0.0 r e in
      let later =
        rounds_quiet s rest (text ++ b ∷ []) scan n (set_input (s ++ rest) f) h.1 r refl in
      rw (more, sym (append_assoc text (b ∷ []) s)) (rw (read, prompt_rounds) (rw h.0.1 later))

  -- The rounds over a text without prompts.
  rounds_body :
      (s rest text : Bytes) (scan n : ℕ) (f : FrameConn P)
      → All IsPlain s
      → HasNoPrompt (text ++ s)
      → 1 ≤ f.rounds
      → f.conn.input ≡ s ++ rest
      → scan ≤ length text
      → (scan' : ℕ) × (scan' ≤ length (text ++ s))
        × (prompt_rounds (length s + n) text scan f
            ≡ prompt_rounds n (text ++ s) scan' (set_input rest f))
  rounds_body [] rest text scan n f h q r e le =
      let bare : 0 + n ≡ n = omega arith in
      rw (bare, append-nil text) (scan, le, ap (λ t. prompt_rounds n text scan (set_input t f)) e)
  rounds_body (b ∷ s) rest text scan n f h q r e le =
      let more : suc (length s) + n ≡ suc (length s + n) = omega arith in
      let assoc : (text ++ b ∷ []) ++ s ≡ text ++ b ∷ s = append_assoc text (b ∷ []) s in
      let q' : HasNoPrompt ((text ++ b ∷ []) ++ s) = rw assoc q in
      let none_ =
        before_prompt-HasNoPrompt _
          (HasNoPrompt-drop scan (text ++ b ∷ []) (HasNoPrompt-first (text ++ b ∷ []) s q')) in
      let (scan1, le1, q1) =
        round_later (length s + n) b (s ++ rest) text scan f
          (read_byte_plain b (s ++ rest) f h.0 r e) (inr none_) le in
      let (scan2, le2, q2) =
        rounds_body s rest (text ++ b ∷ []) scan1 n (set_input (s ++ rest) f) h.1 q' r refl le1 in
      rw (more, sym assoc) (scan2, le2, q1 ∙ q2)

-- A prompt without its end.
abbrev init_of : Service → Bytes
init_of svc = codes "<qconn-" ++ service_name svc

init_of-IsQuiet : (svc : Service) → All IsQuiet (init_of svc)
init_of-IsQuiet broker = ground arith
init_of-IsQuiet launcher = ground arith
init_of-IsQuiet file = ground arith
init_of-IsQuiet cntl = ground arith
init_of-IsQuiet sinfo = ground arith

module _ {P : Type 0} where
  -- The round at the end of a prompt.
  last_round :
      (n : ℕ) (rest body : Bytes) (svc : Service) (scan : ℕ) (f : FrameConn P)
      → HasNoPrompt body
      → 1 ≤ f.rounds
      → f.conn.input ≡ b'>' ∷ rest
      → scan ≤ length body
      → prompt_rounds (suc n) (body ++ init_of svc) scan f
        ≡ ok (trim_left is_space body) (drop_buffered (set_input rest f))
  unfolding prompt_rounds
  last_round n rest body svc scan f q r e le =
      let read = read_byte_plain b'>' rest f (omega arith) r e in
      let whole : (body ++ init_of svc) ++ b'>' ∷ [] ≡ body ++ prompt_of svc =
        append_assoc body (init_of svc) (b'>' ∷ []) in
      let found =
        ap before_prompt (ap (drop scan) whole ∙ drop-append_le scan body (prompt_of svc) le)
        ∙ before_prompt-prompt_of (drop scan body) svc (HasNoPrompt-drop scan body q) in
      let first = ap (take scan) whole ∙ take-append_le scan body (prompt_of svc) le in
      rw (read, prompt_rounds) (rw (found, first, take-append-drop scan body))

  -- Behind a text that holds no prompt and no telnet command, readUntilPrompt stops at the first
  -- prompt, whatever the service, returns the text without its leading blanks, and drops blanks
  -- behind the prompt as far as they are buffered; the bounded search misses no prompt, and the
  -- rounds suffice that the text and the prompt have bytes.
  pub read_until_prompt_response :
      (svc : Service) (body rest : Bytes) (f : FrameConn P)
      → All IsPlain body
      → HasNoPrompt body
      → length body + length (prompt_of svc) ≤ f.rounds
      → f.conn.input ≡ body ++ (prompt_of svc ++ rest)
      → read_until_prompt f ≡ ok (trim_left is_space body) (drop_buffered (set_input rest f))
  unfolding read_until_prompt
  read_until_prompt_response svc body rest f plain q r e =
      let size : length (prompt_of svc) ≡ length (init_of svc) + 1 =
        length-append (init_of svc) (b'>' ∷ []) in
      let k = f.rounds - (length body + (length (init_of svc) + 1)) in
      let rounds : f.rounds ≡ length body + (length (init_of svc) + suc k) = omega arith in
      let some_ : 1 ≤ f.rounds = omega arith in
      let (scan, le, first) =
        rounds_body body (prompt_of svc ++ rest) [] 0 (length (init_of svc) + suc k) f plain q some_
          e (omega arith) in
      let second =
        rounds_quiet (init_of svc) (b'>' ∷ rest) body scan (suc k)
          (set_input (prompt_of svc ++ rest) f) (init_of-IsQuiet svc) some_
          (append_assoc (init_of svc) (b'>' ∷ []) rest) in
      let third = last_round k rest body svc scan (set_input (b'>' ∷ rest) f) q some_ refl le in
      ap (λ n. prompt_rounds n [] 0 f) rounds ∙ first ∙ second ∙ third
