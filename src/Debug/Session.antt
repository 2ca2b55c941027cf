-- ===== src/Debug/Session.antt =====
-- internal/debug/session.go: the requests of a debug session, and its parsers.
pub mod Stops
use qnx8_qconn_mcp.Prelude.{
  ℕ, zero, suc, ◌+◌, Bool, true, false, ◌||◌, ◌&&◌, List, [], ◌∷◌, ◌++◌, Option, none, some, Bytes,
  ◌==◌, ltb, leb, if◌then◌else◌, length, take, drop, codes, same, has_prefix, split, cut_once, ℤ,
  pos, negsuc, to_decimal, to_hex_number, signed, Parsed, number, parse_hex, Outcome, ok, err, pure,
  fail, ◌>>=◌, ◌>>◌,
}
use qnx8_qconn_mcp.Debug.Codec.{hex_encode, hex_decode}
use qnx8_qconn_mcp.Debug.Rsp.{Rsp, Error, refused, odd_hex, panicked, spent, command, send_packet}

pub record Session (P : Type 0) : Type 0 where
  pub rsp : Rsp P
  pub pid : ℤ

abbrev pub S : Type 0 → Type 0 → Type 0
S P A = Session P → Outcome Error (Session P) A

-- A map of the source, in the order in which its keys came.
abbrev pub Values : Type 0
Values = List (Bytes × Bytes)

-- `m[k] = v`
unfoldable pub assign : Bytes → Bytes → Values → Values
assign k v [] = (k, v) ∷ []
assign k v ((k', v') ∷ m) =
    let rest = assign k v m in if same k k' then (k, v) ∷ m else (k', v') ∷ rest

pub record StopReply : Type 0 where
  pub signal : ℤ
  pub thread : Bytes
  pub values : Values
  pub raw : Bytes

abbrev pub is_error : Bytes → Bool
is_error (c ∷ x ∷ y ∷ []) = c == b'E'
is_error _ = false

-- `strconv.ParseInt(s, 16, 32)` of two bytes, which no value overflows; `none` for its errors.
unfoldable pub number_of : Parsed → Option ℕ
number_of (number n) = some n
number_of _ = none

unfoldable pub negated : Option ℕ → Option ℤ
negated none = none
negated (some zero) = some (pos zero)
negated (some (suc n)) = some (negsuc n)

unfoldable pub plain : Option ℕ → Option ℤ
plain none = none
plain (some n) = some (pos n)

unfoldable pub parse_signal : Bytes → Option ℤ
parse_signal [] = none
parse_signal (c ∷ s) =
    if c == b'-'
    then negated (number_of (parse_hex s))
    else if c == b'+'
    then plain (number_of (parse_hex s))
    else plain (number_of (parse_hex (c ∷ s)))

-- The loop over the pairs of a `T` packet.
unfoldable pub add_pair : Bytes → StopReply → StopReply
add_pair kv sr = elim (cut_once b':' kv) [
  | none ↦ sr
  | some (k, v) ↦ record sr {
    thread = if same k (codes "thread") then v else sr.thread;
    values = assign k v sr.values;
  }
]

unfoldable pub add_pairs : List Bytes → StopReply → StopReply
add_pairs [] sr = sr
add_pairs (kv ∷ kvs) sr = add_pairs kvs (add_pair kv sr)

abbrev pub empty_stop : Bytes → StopReply
empty_stop resp = record { signal = pos 0; thread = []; values = []; raw = resp }

-- `if v, err := …; err == nil { sr.Signal = int(v) }`
unfoldable pub with_signal : Bytes → StopReply → StopReply
with_signal resp sr =
    let signalled : StopReply = elim (parse_signal (take 2 (drop 1 resp))) [
      | none ↦ sr
      | some v ↦ record sr { signal = v }
    ] in
    if leb 3 (length resp) then signalled else sr

-- `none` where `resp[3:]` is out of range.
unfoldable pub with_pairs : Bytes → StopReply → Option StopReply
with_pairs resp sr =
    if leb 3 (length resp) then some (add_pairs (split b';' (drop 3 resp)) sr) else none

unfoldable pub parse_stop : Bytes → Option StopReply
parse_stop [] = some (empty_stop [])
parse_stop (c ∷ s) =
    let sr = with_signal (c ∷ s) (empty_stop (c ∷ s)) in
    if c == b'T'
    then with_pairs (c ∷ s) sr
    else if c == b'S' || c == b'X' || c == b'W'
    then some sr
    else some (empty_stop (c ∷ s))

-- `m addr,len`
abbrev pub read_request : ℕ → ℤ → Bytes
read_request addr len = b'm' ∷ (to_hex_number addr ++ b',' ∷ signed to_hex_number len)

abbrev pub breakpoint_args : ℤ → ℕ → ℤ → Bytes
breakpoint_args kind addr kind_bytes =
    signed to_decimal kind ++ b',' ∷ (to_hex_number addr ++ b',' ∷ signed to_decimal kind_bytes)

module _ {P : Type 0} where
  -- `s.rsp.Command(payload)`
  unfoldable pub ask : Bytes → S P Bytes
  ask payload s = elim (command payload s.rsp) [
    | ok resp r ↦ ok resp (record s { rsp = r })
    | err e r ↦ err e (record s { rsp = r })
  ]

  unfoldable pub stop_of : Bytes → S P StopReply
  stop_of resp s = elim (parse_stop resp) [ none ↦ err panicked s | some sr ↦ ok sr s ]

  -- A call whose result is thrown away.
  unfoldable pub try_ask : Bytes → S P (Unit {0})
  try_ask payload s = elim (ask payload s) [ ok resp s' ↦ ok tt s' | err e s' ↦ ok tt s' ]

  abbrev pub set_pid : ℤ → S P (Unit {0})
  set_pid pid s = ok tt (record s { pid = pid })

  unfoldable pub new_session : Rsp P → Outcome Error (Session P) (Unit {0})
  new_session r =
      try_ask (codes "qSupported:multiprocess+;vContSupported+") (record { rsp = r; pid = pos 0 })

  -- `Close` before it closes the connection.
  unfoldable pub close : S P (Unit {0})
  close s = elim s.pid [
    | pos n ↦ let detached = try_ask (codes "D") s in if n == 0 then ok tt s else detached
    | negsuc n ↦ try_ask (codes "D") s
  ]

  -- The fallback of `Attach`.
  unfoldable pub select_and_query : ℤ → S P Bytes
  select_and_query pid =
      try_ask (codes "Hg p" ++ (signed to_hex_number pid ++ codes ".0")) >> ask (codes "?")

  unfoldable pub attach : ℤ → S P StopReply
  attach pid = do
    resp ← ask (codes "vAttach;" ++ signed to_hex_number pid)
    resp' ← (λ s.
        let again = select_and_query pid s in
        if is_error resp || same resp [] then again else ok resp s)
    set_pid pid
    stop_of resp'

  unfoldable pub status : S P StopReply
  status = ask (codes "?") >>= stop_of

  unfoldable pub continue : S P StopReply
  continue = ask (codes "c") >>= stop_of

  unfoldable pub step : S P StopReply
  step = ask (codes "s") >>= stop_of

  -- `Detach` forgets the process before it looks at the reply.
  unfoldable pub detach : S P (Unit {0})
  detach = do
    resp ← ask (codes "D")
    set_pid (pos 0)
    if is_error resp then fail (refused resp) else pure tt

  unfoldable pub kill_inferior : S P (Unit {0})
  kill_inferior s = elim (send_packet (codes "k") s.rsp) [
    | ok u r ↦ ok tt (record s { rsp = r })
    | err e r ↦ err e (record s { rsp = r })
  ]

  unfoldable pub read_registers : S P Bytes
  read_registers = do
    resp ← ask (codes "g")
    if is_error resp then fail (refused resp) else pure resp

  unfoldable pub decoded : Option Bytes → S P Bytes
  decoded none = fail odd_hex
  decoded (some b) = pure b

  unfoldable pub read_memory : ℕ → ℤ → S P Bytes
  read_memory addr len = do
    resp ← ask (read_request addr len)
    if is_error resp then fail (refused resp) else decoded (hex_decode resp)

  -- `if resp != "OK"`
  unfoldable pub expect_ok : Bytes → S P (Unit {0})
  expect_ok resp = if same resp (codes "OK") then pure tt else fail (refused resp)

  unfoldable pub write_memory : ℕ → Bytes → S P (Unit {0})
  write_memory addr bytes =
      ask (
        b'M'
        ∷ (to_hex_number addr ++ b',' ∷ (to_hex_number (length bytes) ++ b':' ∷ hex_encode bytes)))
      >>= expect_ok

  unfoldable pub set_breakpoint : ℕ → ℤ → ℤ → S P (Unit {0})
  set_breakpoint addr kind kind_bytes =
      ask (b'Z' ∷ breakpoint_args kind addr kind_bytes) >>= expect_ok

  unfoldable pub clear_breakpoint : ℕ → ℤ → ℤ → S P (Unit {0})
  clear_breakpoint addr kind kind_bytes =
      ask (b'z' ∷ breakpoint_args kind addr kind_bytes) >>= expect_ok

-- The ids of one `m` packet: the pieces that are not empty.
unfoldable pub nonempty : List Bytes → List Bytes
nonempty [] = []
nonempty ([] ∷ ts) = nonempty ts
nonempty ((c ∷ t) ∷ ts) = (c ∷ t) ∷ nonempty ts

unfoldable pub ids_of : Bytes → List Bytes
ids_of resp = if has_prefix resp (codes "m") then nonempty (split b',' (drop 1 resp)) else []

-- The loop of `ListThreads` on fuel: it goes on for as long as the stub sends ids. An error comes
-- with the ids so far.
unfoldable pub thread_rounds :
    {P : Type 0}
    → ℕ
    → List Bytes
    → Bytes
    → Session P
    → Outcome (List Bytes × Error) (Session P) (List Bytes)
thread_rounds zero ids resp s = err (ids, spent) s
thread_rounds (suc fuel) ids resp s =
    let round = ask (codes "qsThreadInfo") s in
    let next : Outcome (List Bytes × Error) (Session _) (List Bytes) = elim round [
      | err e s' ↦ err (ids ++ ids_of resp, e) s'
      | ok resp' s' ↦ thread_rounds fuel (ids ++ ids_of resp) resp' s'
    ] in
    if same resp [] || same resp (codes "l") || is_error resp then ok ids s else next

unfoldable pub list_threads :
    {P : Type 0} → ℕ → Session P → Outcome (List Bytes × Error) (Session P) (List Bytes)
list_threads fuel s = elim (ask (codes "qfThreadInfo") s) [
  | err e s' ↦ err ([], e) s'
  | ok resp s' ↦ thread_rounds fuel [] resp s'
]
