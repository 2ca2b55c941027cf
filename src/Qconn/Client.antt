-- ===== src/Qconn/Client.antt =====
-- internal/qconn/client.go: the client, and the service that its connection is in. The mutex lets
-- one call run at a time, so each is a function of the client that the last one left.
pub mod Services
use qnx8_qconn_mcp.Prelude.{
  ℕ, Bool, true, false, not, ◌||◌, List, [], ◌∷◌, ◌++◌, Option, none, some, Bytes, ◌==◌,
  if◌then◌else◌, codes, same, insert, has_prefix, cut_once, int_value, atoi, ℤ, pos, Outcome, ok,
  err, pure, fail, ◌>>=◌, ◌>>◌,
}
use qnx8_qconn_mcp.Qconn.Noise.{first_line, trim_left, trim_right, fields}
use qnx8_qconn_mcp.Qconn.Frame.{FrameConn, Error, proto_err, service, write_line, read_until_prompt}

pub data Service : Type 0 where
  broker launcher file cntl sinfo : Service

abbrev pub service_name : Service → Bytes
service_name broker = codes "broker"
service_name launcher = codes "launcher"
service_name file = codes "file"
service_name cntl = codes "cntl"
service_name sinfo = codes "sinfo"

-- `a == b` on services.
abbrev pub same_service : Service → Service → Bool
same_service broker broker = true
same_service launcher launcher = true
same_service file file = true
same_service cntl cntl = true
same_service sinfo sinfo = true
same_service _ _ = false

-- The word that leaves a service.
abbrev pub leave_word : Service → Bytes
leave_word file = codes "q"
leave_word _ = codes "done"

pub record Client (P : Type 0) : Type 0 where
  pub fc : FrameConn P
  pub current : Service
  pub info : Option (List (Bytes × Bytes))

abbrev pub C : Type 0 → Type 0 → Type 0
C P A = Client P → Outcome Error (Client P) A

-- `strings.IndexAny(tok, "=/:")`, and the two sides of that place.
abbrev pub is_separator : ℕ → Bool
is_separator c = c == b'=' || c == b'/' || c == b':'

unfoldable pub cut_any : Bytes → Option (Bytes × Bytes)
cut_any [] = none
cut_any (c ∷ s) = elim (is_separator c) [
  | true ↦ some ([], s)
  | false ↦ elim (cut_any s) [ none ↦ none | some (a, b) ↦ some (c ∷ a, b) ]
]

abbrev pub is_trimmed : ℕ → Bool
is_trimmed c = is_separator c || c == b' '

-- The name and the version of a token.
unfoldable pub version_of : Bytes → Bytes × ℤ
version_of tok = elim (cut_any tok) [
  | none ↦ (tok, pos 0)
  | some (name, ver) ↦ (name, int_value (atoi (trim_left is_trimmed (trim_right is_trimmed ver))))
]

unfoldable pub add_version : Bytes → List (Bytes × ℤ) → List (Bytes × ℤ)
add_version tok out =
    let (name, ver) = version_of tok in
    if same tok (codes "versions:") || same name [] then out else insert name ver out

-- The loop of `Versions` over the fields.
unfoldable pub add_versions : List Bytes → List (Bytes × ℤ) → List (Bytes × ℤ)
add_versions [] out = out
add_versions (tok ∷ toks) out = add_versions toks (add_version tok out)

unfoldable pub add_info : Bytes → List (Bytes × Bytes) → List (Bytes × Bytes)
add_info field m = elim (cut_once b'=' field) [ none ↦ m | some (k, v) ↦ insert k v m ]

-- The loop of `Info` over the fields.
unfoldable pub add_infos : List Bytes → List (Bytes × Bytes) → List (Bytes × Bytes)
add_infos [] m = m
add_infos (field ∷ fs) m = add_infos fs (add_info field m)

module _ {P : Type 0} where
  -- A call of the framed connection.
  abbrev pub on_frame : {A : Type 0} → (FrameConn P → Outcome Error (FrameConn P) A) → C P A
  on_frame m c = elim (m c.fc) [
    | ok a f ↦ ok a (record c { fc = f })
    | err e f ↦ err e (record c { fc = f })
  ]

  unfoldable pub raw : Bytes → C P Bytes
  raw cmd = on_frame (write_line cmd >> read_until_prompt)

  -- `handshake`; the banner is only looked at for a warning.
  unfoldable pub handshake : C P (Unit {0})
  handshake = on_frame read_until_prompt >> pure tt

  abbrev pub enter : Service → C P (Unit {0})
  enter s c = ok tt (record c { current = s })

  unfoldable pub leave_service : C P (Unit {0})
  leave_service c = (raw (leave_word c.current) >> enter broker) c

  -- `service <name>`, answered by a line that begins with `OK`.
  unfoldable pub enter_service : Service → C P (Unit {0})
  enter_service s = do
    resp ← raw (codes "service " ++ service_name s)
    if has_prefix (first_line resp) (codes "OK") then enter s else fail (proto_err service resp)

  unfoldable pub ensure : Service → C P (Unit {0})
  ensure s c =
      let back : Outcome Error (Client P) (Unit {0}) =
        if same_service c.current broker then ok tt c else leave_service c in
      let gone : Outcome Error (Client P) (Unit {0}) = elim back [
        | err e c' ↦ err e c'
        | ok u c' ↦ if same_service s broker then ok tt c' else enter_service s c'
      ] in
      if same_service c.current s then ok tt c else gone

  -- `Raw`
  unfoldable pub raw_in : Service → Bytes → C P Bytes
  raw_in svc cmd = ensure svc >> raw cmd

  unfoldable pub versions : C P (List (Bytes × ℤ))
  versions = do
    ensure broker
    resp ← raw (codes "versions ?")
    pure (add_versions (fields (first_line resp)) [])

  abbrev pub keep_info : List (Bytes × Bytes) → C P (List (Bytes × Bytes))
  keep_info m c = ok m (record c { info = some m })

  unfoldable pub ask_info : C P (List (Bytes × Bytes))
  ask_info = do ensure broker; resp ← raw (codes "info"); keep_info (add_infos (fields resp) [])

  unfoldable pub info_of : C P (List (Bytes × Bytes))
  info_of c = elim c.info [ none ↦ ask_info c | some m ↦ ok m c ]
