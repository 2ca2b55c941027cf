-- ===== src/Qconn/File/Replies.antt =====
-- One read or write of an open file, against a daemon that answers it.
use qnx8_qconn_mcp.Prelude.{
  ℕ, ◌+◌, ◌^◌, ◌≤◌, ◌<◌, ◌≡◌, refl, ap, ◌∙◌, List, [], ◌∷◌, ◌++◌, append-nil, append_assoc, Bytes,
  lt→ltb, length, All, ℤ, pos, integer, parse_int, int_value, ok, ◌>>=◌, arith,
}
use qnx8_qconn_mcp.Wire.{deliver}
use qnx8_qconn_mcp.Qconn.Telnet.{IsPlain}
use qnx8_qconn_mcp.Qconn.Noise.{trim_right, is_cr}
use qnx8_qconn_mcp.Qconn.Prompt.Find.{HasNoPrompt, prompt_of}
use qnx8_qconn_mcp.Qconn.Client.{Service}
use qnx8_qconn_mcp.Qconn.Frame.{FrameConn, set_input, write_line, drop_buffered}
use qnx8_qconn_mcp.Qconn.Frame.Response.{read_until_prompt_response}
use qnx8_qconn_mcp.Qconn.Frame.Refusals.{write_raw_writes}
use qnx8_qconn_mcp.Qconn.Frame.Lines.{
  IsLineByte, indented, length-indented, read_response_line_lem, read_n_lem,
}
use qnx8_qconn_mcp.Qconn.File.{
  read_command, write_command, read_chunk, payload, read_status, read_at, write_status, write_at,
  int_of,
}
use qnx8_qconn_mcp.Qconn.File.Status.{
  status_line, line_text-status_line, head_field-status_line, parse_int-to_hex_number,
  status_line-starts, status_line-IsLineByte, line_text-indented, indented-IsLineByte,
  indented-append,
}

-- The connection behind writes that went out, with `rest` to read.
abbrev pub served : {P : Type 0} → P → List Bytes → Bytes → FrameConn P → FrameConn P
served next written rest f = record f {
  conn = record (f.conn) { peer = next; input = rest; sent = f.conn.sent ++ written; faults = [] };
}

abbrev pub line_of : Bytes → Bytes
line_of s = s ++ 10 ∷ []

module _ {P : Type 0} where
  pub write_line_writes :
      (s : Bytes) (f : FrameConn P)
      → f.conn.faults ≡ []
      → write_line s f
        ≡ ok tt (record f { conn = deliver (line_of s) (record (f.conn) { faults = [] }) })
  unfolding write_line
  write_line_writes s f h = write_raw_writes (line_of s) f h

  -- A write that is answered.
  pub deliver-served :
      (b reply : Bytes) (next : P) (f : FrameConn P)
      → f.conn.react f.conn.peer b ≡ (next, reply)
      → record f { conn = deliver b (record (f.conn) { faults = [] }) }
        ≡ served next (b ∷ []) (f.conn.input ++ reply) f
  unfolding deliver
  deliver-served b reply next f h = rw h

  served-served :
      (next mid : P) (w w' : List Bytes) (s s' : Bytes) (f : FrameConn P)
      → served next w' s' (served mid w s f) ≡ served next (w ++ w') s' f
  served-served next mid w w' s s' f =
      ap
        (λ t. record f {
          conn = record (f.conn) { peer = next; input = s'; sent = t; faults = [] };
        })
        (append_assoc f.conn.sent w w')

  read_status-payload :
      (n : ℕ) (t : Bytes) (f : FrameConn P)
      → n < 2 ^ 63
      → read_status (status_line n t) f ≡ payload (status_line n t) (integer (pos n)) f
  unfolding read_status
  read_status-payload n t f h =
      let (o, e) = status_line-starts n t in
      let parsed = ap parse_int (head_field-status_line n t) ∙ parse_int-to_hex_number n h in
      rw (e, o) (ap (λ p. payload (status_line n t) p f) parsed)

  -- A payload and the prompt behind it.
  payload_reads :
      (svc : Service) (line got gap rest : Bytes) (f : FrameConn P)
      → All IsPlain gap
      → HasNoPrompt gap
      → length gap + length (prompt_of svc) ≤ f.rounds
      → f.conn.input ≡ got ++ (gap ++ (prompt_of svc ++ rest))
      → payload line (integer (pos (length got))) f ≡ ok got (drop_buffered (set_input rest f))
  unfolding payload
  payload_reads svc line [] gap rest f a b r e =
      rw (read_until_prompt_response svc gap rest f a b r e, ◌>>=◌)
  payload_reads svc line (c ∷ got) gap rest f a b r e =
      let f' = set_input (gap ++ (prompt_of svc ++ rest)) f in
      rw (lt→ltb 0 (length (c ∷ got)) (omega arith)) (
        rw (read_n_lem (c ∷ got) (gap ++ (prompt_of svc ++ rest)) f e, ◌>>=◌)
          (rw (read_until_prompt_response svc gap rest f' a b r refl, ◌>>=◌)))

-- How the daemon answers a command: a status line, the bytes `got`, and a prompt behind more text.
pub record Replies {P : Type 0} (n : ℕ) (got : Bytes) (f : FrameConn P)
    (answered : P → Bytes → Type 0) : Type 0 where
  pub next : P
  pub svc : Service
  pub leaked : ℕ
  pub tail : Bytes
  pub gap : Bytes
  pub rest : Bytes
  -- only blanks behind the last prompt wait to be read
  pub quiet : f.conn.input ≡ indented leaked []
  pub no_faults : f.conn.faults ≡ []
  pub answers : answered next (status_line n tail ++ 10 ∷ (got ++ (gap ++ (prompt_of svc ++ rest))))
  pub tail_is : All IsLineByte tail
  pub gap_is : All IsPlain gap
  pub unprompted : HasNoPrompt gap
  pub small : n < 2 ^ 63
  pub line_fits : leaked + length (status_line n tail) < f.rounds
  pub gap_fits : length gap + length (prompt_of svc) ≤ f.rounds

-- What a command and its payload make the remote end do.
abbrev pub Answers : {P : Type 0} → FrameConn P → Bytes → P → Bytes → Type 0
Answers f cmd next reply = f.conn.react f.conn.peer (line_of cmd) ≡ (next, reply)

module _ {P : Type 0} where
  -- Against a daemon that answers a read by a status line, the bytes and a prompt, readAt returns
  -- exactly these bytes, whatever they are: prompts and telnet commands among them are data. What
  -- stands behind the prompt is left but for buffered blanks, and the command was all that was
  -- written. Blanks that waited behind the last prompt do no harm.
  pub read_at_reads :
      (fd : ℤ) (off n : ℕ) (got : Bytes) (f : FrameConn P)
      → (r : Replies (length got) got f (Answers f (read_command fd off (read_chunk n))))
      → read_at fd off n f
        ≡ ok got (
            drop_buffered
              (served r.next (line_of (read_command fd off (read_chunk n)) ∷ []) r.rest f))
  unfolding read_at
  read_at_reads fd off n got f r =
      let cmd = read_command fd off (read_chunk n) in
      let line = status_line (length got) r.tail in
      let line' = status_line (length got) (trim_right is_cr r.tail) in
      let behind = got ++ (r.gap ++ (prompt_of r.svc ++ r.rest)) in
      let after = λ (s : Bytes). served r.next (line_of cmd ∷ []) s f in
      let read =
        read_response_line_lem (indented r.leaked line) behind
          (after (indented r.leaked line ++ 10 ∷ behind))
          (indented-IsLineByte r.leaked line (status_line-IsLineByte (length got) r.tail r.tail_is))
          (omega (arith, length-indented r.leaked line, r.line_fits)) refl in
      let text = line_text-indented r.leaked line ∙ line_text-status_line (length got) r.tail in
      let paid =
        read_status-payload (length got) (trim_right is_cr r.tail) (after behind) r.small
        ∙ payload_reads r.svc line' got r.gap r.rest (after behind) r.gap_is r.unprompted r.gap_fits
            refl in
      let sent_ =
        deliver-served (line_of cmd) (line ++ 10 ∷ behind) r.next f r.answers
        ∙ ap after (
            ap (λ s. s ++ (line ++ 10 ∷ behind)) r.quiet
            ∙ indented-append r.leaked line (10 ∷ behind)) in
      rw (write_line_writes cmd f r.no_faults, ◌>>=◌) (rw sent_ (rw (read, ◌>>=◌) (rw text paid)))

-- A command without an answer, and a payload that is answered.
abbrev pub AnswersPayload : {P : Type 0} → FrameConn P → Bytes → Bytes → P → Bytes → Type 0
AnswersPayload {P} f cmd bytes next reply =
    (mid : P) × (f.conn.react f.conn.peer (line_of cmd) ≡ (mid, []))
    × (f.conn.react mid bytes ≡ (next, reply))

module _ {P : Type 0} where
  write_status-number :
      (n : ℕ) (t gap rest : Bytes) (svc : Service) (f : FrameConn P)
      → n < 2 ^ 63
      → All IsPlain gap
      → HasNoPrompt gap
      → length gap + length (prompt_of svc) ≤ f.rounds
      → f.conn.input ≡ gap ++ (prompt_of svc ++ rest)
      → write_status (status_line n t) f ≡ ok (pos n) (drop_buffered (set_input rest f))
  unfolding write_status int_value
  write_status-number n t gap rest svc f h a b r e =
      let (o, x) = status_line-starts n t in
      let parsed = ap int_of (head_field-status_line n t) ∙ rw (parse_int-to_hex_number n h) in
      rw o (
        rw (read_until_prompt_response svc gap rest f a b r e, ◌>>=◌)
          (ap (λ z. ok z (drop_buffered (set_input rest f))) parsed))

  -- Against a daemon that answers the payload of a write by a status line and a prompt, writeAt
  -- returns the number of that line, having written the command and the payload as it is, and
  -- nothing else.
  pub write_at_writes :
      (fd : ℤ) (off n : ℕ) (bytes : Bytes) (f : FrameConn P)
      → (r : Replies n [] f (AnswersPayload f (write_command fd off (length bytes)) bytes))
      → write_at fd off bytes f
        ≡ ok (pos n) (
            drop_buffered
              (served r.next (line_of (write_command fd off (length bytes)) ∷ bytes ∷ []) r.rest f))
  unfolding write_at
  write_at_writes fd off n bytes f r =
      let cmd = write_command fd off (length bytes) in
      let line = status_line n r.tail in
      let behind = r.gap ++ (prompt_of r.svc ++ r.rest) in
      let (mid, first, second) = r.answers in
      let f1 = served mid (line_of cmd ∷ []) f.conn.input f in
      let after = λ (s : Bytes). served r.next (line_of cmd ∷ bytes ∷ []) s f in
      let line' = status_line n (trim_right is_cr r.tail) in
      let sent_ =
        deliver-served (line_of cmd) [] mid f first
        ∙ ap (λ s. served mid (line_of cmd ∷ []) s f) (append-nil f.conn.input) in
      let paid =
        deliver-served bytes (line ++ 10 ∷ behind) r.next f1 second
        ∙ served-served r.next mid (line_of cmd ∷ []) (bytes ∷ []) f.conn.input _ f
        ∙ ap after (
            ap (λ s. s ++ (line ++ 10 ∷ behind)) r.quiet
            ∙ indented-append r.leaked line (10 ∷ behind)) in
      let read =
        read_response_line_lem (indented r.leaked line) behind
          (after (indented r.leaked line ++ 10 ∷ behind))
          (indented-IsLineByte r.leaked line (status_line-IsLineByte n r.tail r.tail_is))
          (omega (arith, length-indented r.leaked line, r.line_fits)) refl in
      let text = line_text-indented r.leaked line ∙ line_text-status_line n r.tail in
      let done =
        write_status-number n (trim_right is_cr r.tail) r.gap r.rest r.svc (after behind) r.small
          r.gap_is r.unprompted r.gap_fits refl in
      rw (write_line_writes cmd f r.no_faults, ◌>>=◌)
        (rw sent_
          (rw (write_raw_writes bytes f1 refl, ◌>>=◌) (rw paid (rw (read, ◌>>=◌) (rw text done)))))
