-- ===== src/Mockqnx/Qconn/Exchange.antt =====
-- internal/mockqnx/server.go: what an idle daemon does with one line, and with a payload behind it.
use qnx8_qconn_mcp.Prelude.{
  ℕ, zero, suc, ◌+◌, ◌*◌, ◌<◌, ◌≡◌, ◌≢◌, refl, true, ◌∙◌, false, [], ◌∷◌, ◌++◌, append-nil, none,
  some, Bytes, ◌==◌, le→leb, length, take-length, drop-length, All, All-append, cut_once,
  to_hex_number, to_hex_number-cons, arith,
}
use qnx8_qconn_mcp.Qconn.Noise.{is_nil, trim_right}
use qnx8_qconn_mcp.Mockqnx.Qconn.Requests.{IsHex, to_hex_number-IsHex}
use qnx8_qconn_mcp.Mockqnx.Qconn.{Session, goes_on, hangs_up, awaits, dispatch, payload_line}
use qnx8_qconn_mcp.Mockqnx.Qconn.Serve.{
  Daemon, handled, is_line_end, serve_line, serve_payload, serve_one, serve_rounds, react,
}

-- A daemon that has read all that came in.
abbrev pub idle : Session → Daemon
idle s = record { session = s; pending = []; awaited = none; closed = false }

-- A daemon that waits for the payload of a write.
abbrev pub awaiting : ℕ → ℕ → ℕ → Session → Daemon
awaiting fd off n s = record {
  session = s;
  pending = [];
  awaited = some (record { fd = fd; off = off; n = n });
  closed = false;
}

-- A line that the daemon reads as it was written: no line end within it, and none at its end.
pub record IsRequest (cmd : Bytes) : Type 0 where
  pub some_ : is_nil cmd ≡ false
  pub whole : All (λ c. c ≢ 10) cmd
  pub kept : trim_right is_line_end cmd ≡ cmd

trim_right-append :
    (s t : Bytes)
    → is_nil t ≡ false
    → trim_right is_line_end t ≡ t
    → (is_nil (s ++ t) ≡ false) × (trim_right is_line_end (s ++ t) ≡ s ++ t)
unfolding trim_right
trim_right-append [] t h e = (h, e)
trim_right-append (c ∷ s) t h e =
    let (h', e') = trim_right-append s t h e in (refl, rw e' (rw h' (ground arith)))

-- What stands in front of a request makes a request with it.
pub IsRequest-append : (s t : Bytes) → All (λ c. c ≢ 10) s → IsRequest t → IsRequest (s ++ t)
IsRequest-append s t h r =
    let (n, k) = trim_right-append s t r.some_ r.kept in
    record { some_ = n; whole = All-append (λ c. c ≢ 10) s t h r.whole; kept = k }

trim_right-hex : (c : ℕ) (d : Bytes) → All IsHex (c ∷ d) → trim_right is_line_end (c ∷ d) ≡ c ∷ d
unfolding trim_right
trim_right-hex c [] h = ground (arith, h.0)
trim_right-hex c (x ∷ d) h = rw (trim_right-hex x d h.1) (ground (arith, h.0))

hex_whole : (d : Bytes) → All IsHex d → All (λ c. c ≢ 10) d
hex_whole [] h = tt
hex_whole (c ∷ d) h = (ground (arith, h.0), hex_whole d h.1)

pub IsRequest-to_hex_number : (n : ℕ) → IsRequest (to_hex_number n)
IsRequest-to_hex_number n =
    let (c, d, e) = to_hex_number-cons n in
    let digits : All IsHex (c ∷ d) = rw e at (to_hex_number-IsHex n) in
    rw e
      (record { some_ = refl; whole = hex_whole (c ∷ d) digits; kept = trim_right-hex c d digits })

pub to_hex_number_whole : (n : ℕ) → All (λ c. c ≢ 10) (to_hex_number n)
to_hex_number_whole n = hex_whole (to_hex_number n) (to_hex_number-IsHex n)

cut_once-line :
    (cmd : Bytes) → All (λ c. c ≢ 10) cmd → cut_once 10 (cmd ++ 10 ∷ []) ≡ some (cmd, [])
unfolding cut_once
cut_once-line [] h = refl
cut_once-line (c ∷ cmd) h =
    let other : (c == 10) ≡ false = ground (arith, h.0) in
    rw (other, cut_once) (rw (cut_once-line cmd h.1))

-- A round at an idle daemon finds nothing to do.
serve_rounds-idle : (k : ℕ) (s : Session) → serve_rounds k (idle s) ≡ (idle s, [])
unfolding serve_rounds serve_one serve_line cut_once
serve_rounds-idle zero s = refl
serve_rounds-idle (suc k) s = refl

serve_rounds-awaiting :
    (k fd off n : ℕ) (s : Session)
    → 0 < n
    → serve_rounds k (awaiting fd off n s) ≡ (awaiting fd off n s, [])
unfolding serve_rounds serve_one serve_payload
serve_rounds-awaiting zero fd off n s h = refl
serve_rounds-awaiting (suc k) fd off zero s h = absurd (omega arith)
serve_rounds-awaiting (suc k) fd off (suc n) s h = ground arith

-- What came in at an idle daemon.
abbrev received : Bytes → Session → Daemon
received b s = record { session = s; pending = b; awaited = none; closed = false }

serve_one-line :
    (cmd : Bytes) (s : Session)
    → IsRequest cmd
    → serve_one (received (cmd ++ 10 ∷ []) s) ≡ some (handled (dispatch cmd s) [])
unfolding serve_one serve_line
serve_one-line cmd s r = rw (cut_once-line cmd r.whole, serve_line) (rw r.kept)

-- One round, behind which nothing is left to do.
serve_rounds-last :
    (k : ℕ) (d d' : Daemon) (out : Bytes)
    → serve_one d ≡ some (d', out)
    → serve_rounds k d' ≡ (d', [])
    → serve_rounds (suc k) d ≡ (d', out)
unfolding serve_rounds
serve_rounds-last k d d' out e rest = rw (e, serve_rounds) (rw rest (rw (append-nil out)))

-- The rounds of react: one, and more.
react-last :
    (d d' : Daemon) (b out : Bytes)
    → serve_one (record d { pending = d.pending ++ b }) ≡ some (d', out)
    → ((k : ℕ) → serve_rounds k d' ≡ (d', []))
    → react d b ≡ (d', out)
unfolding react
react-last d d' b out e rest =
    let k = 2 * length (d.pending ++ b) + 1 in
    let rounds : 2 * length (d.pending ++ b) + 2 ≡ suc k = omega arith in
    rw rounds (serve_rounds-last k (record d { pending = d.pending ++ b }) d' out e (rest k))

-- A line that is answered.
pub react-goes_on :
    (cmd out : Bytes) (s s' : Session)
    → IsRequest cmd
    → dispatch cmd s ≡ goes_on out s'
    → react (idle s) (cmd ++ 10 ∷ []) ≡ (idle s', out)
unfolding handled
react-goes_on cmd out s s' r e =
    react-last (idle s) (idle s') (cmd ++ 10 ∷ []) out (serve_one-line cmd s r ∙ rw e)
      (λ k. serve_rounds-idle k s')

-- A daemon that has hung up.
abbrev pub ended : Session → Daemon
ended s = record { session = s; pending = []; awaited = none; closed = true }

serve_rounds-ended : (k : ℕ) (s : Session) → serve_rounds k (ended s) ≡ (ended s, [])
unfolding serve_rounds serve_one
serve_rounds-ended zero s = refl
serve_rounds-ended (suc k) s = refl

-- A line behind which the daemon hangs up.
pub react-hangs_up :
    (cmd out : Bytes) (s s' : Session)
    → IsRequest cmd
    → dispatch cmd s ≡ hangs_up out s'
    → react (idle s) (cmd ++ 10 ∷ []) ≡ (ended s', out)
unfolding handled
react-hangs_up cmd out s s' r e =
    react-last (idle s) (ended s') (cmd ++ 10 ∷ []) out (serve_one-line cmd s r ∙ rw e)
      (λ k. serve_rounds-ended k s')

-- A write of some bytes is not answered before they are there.
pub react-awaits :
    (cmd : Bytes) (fd off n : ℕ) (s s' : Session)
    → IsRequest cmd
    → 0 < n
    → dispatch cmd s ≡ awaits fd off n s'
    → react (idle s) (cmd ++ 10 ∷ []) ≡ (awaiting fd off n s', [])
unfolding handled
react-awaits cmd fd off n s s' r h e =
    react-last (idle s) (awaiting fd off n s') (cmd ++ 10 ∷ []) [] (serve_one-line cmd s r ∙ rw e)
      (λ k. serve_rounds-awaiting k fd off n s' h)

serve_one-payload :
    (fd off : ℕ) (bytes : Bytes) (s : Session)
    → serve_one (record {
      session = s;
      pending = bytes;
      awaited = some (record { fd = fd; off = off; n = length bytes });
      closed = false;
    })
      ≡ some (handled (payload_line fd off bytes s) [])
unfolding serve_one serve_payload
serve_one-payload fd off bytes s =
    let all_ = le→leb (length bytes) (length bytes) (omega arith) in
    rw all_ (
      rw (
        take-length (length bytes) bytes (omega arith),
        drop-length (length bytes) bytes (omega arith),
      ))

-- A payload that is stored.
pub react-payload :
    (fd off : ℕ) (bytes out : Bytes) (s s' : Session)
    → payload_line fd off bytes s ≡ goes_on out s'
    → react (awaiting fd off (length bytes) s) bytes ≡ (idle s', out)
unfolding handled
react-payload fd off bytes out s s' e =
    react-last (awaiting fd off (length bytes) s) (idle s') bytes out
      (serve_one-payload fd off bytes s ∙ rw e) (λ k. serve_rounds-idle k s')
