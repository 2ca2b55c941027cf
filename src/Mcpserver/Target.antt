-- ===== src/Mcpserver/Target.antt =====
-- internal/mcpserver/server.go and tools.go: the qconn client that a server's tools share. It is
-- dialled by the first call, with `Dial` of internal/qconn/client.go; what dialling gives is an
-- argument. The mutex lets one call have it at a time.
pub mod Keeps
use qnx8_qconn_mcp.Prelude.{◌≡◌, refl, [], ◌∷◌, Option, none, some, Outcome, ok, err, ◌++◌, List}
use qnx8_qconn_mcp.Qconn.Frame.{FrameConn}
use qnx8_qconn_mcp.Qconn.Frame as Frame
use qnx8_qconn_mcp.Qconn.Client.{Client, broker, handshake}
use qnx8_qconn_mcp.Qconn.Exec.{ExecError, Dials, D}

pub data ToolError : Type 0 where
  not_dialed : ToolError
  qconn_error : Frame.Error → ToolError
  exec_error : ExecError → ToolError
  invalid_base64 : ToolError
  invalid_hex : ToolError

-- The client of a server, where it has one, and the connections that dialling will give.
pub record Target (P : Type 0) : Type 0 where
  pub conn : Option (Client P)
  pub later : Dials P

abbrev pub T : Type 0 → Type 0 → Type 0
T P A = Target P → Outcome ToolError (Target P) A

module _ {P : Type 0} where
  -- The client of a connection that was just made.
  abbrev pub new_client : FrameConn P → Client P
  new_client f = record { fc = f; current = broker; info = none }

  -- `Dial`
  unfoldable pub dial : Dials P → Outcome ToolError (Dials P) (Client P)
  dial [] = err not_dialed []
  dial (none ∷ later) = err not_dialed later
  dial (some f ∷ later) = elim (handshake (new_client f)) [
    | ok u c ↦ ok c later
    | err e c ↦ err (qconn_error e) later
  ]

  unfoldable pub client : T P (Client P)
  client t = elim t.conn [
    | some c ↦ ok c t
    | none ↦ elim (dial t.later) [
      | ok c later' ↦ ok c (record { conn = some c; later = later' })
      | err e later' ↦ err e (record { conn = none; later = later' })
    ]
  ]

  unfoldable pub reset_client : Target P → Target P
  reset_client t = record t { conn = none }

  unfoldable pub cli : T P (Client P)
  cli t = elim (client t) [ ok c t' ↦ ok c t' | err e t' ↦ err e (reset_client t') ]

  abbrev pub keep : Client P → Target P → Target P
  keep c t = record t { conn = some c }

  -- A call of the client, which stays the server's whatever becomes of the call.
  unfoldable pub on_target :
      {E A : Type 0} → (E → ToolError) → (Client P → Outcome E (Client P) A) → T P A
  on_target wrap m t = elim (cli t) [
    | err e t' ↦ err e t'
    | ok c t' ↦ elim (m c) [ ok a c' ↦ ok a (keep c' t') | err e c' ↦ err (wrap e) (keep c' t') ]
  ]

  -- A call that makes connections of its own.
  unfoldable pub on_dials : {A : Type 0} → D P A → T P A
  on_dials m t = elim (cli t) [
    | err e t' ↦ err e t'
    | ok c t' ↦ elim (m t'.later) [
      | ok a later' ↦ ok a (record t' { later = later' })
      | err e later' ↦ err (exec_error e) (record t' { later = later' })
    ]
  ]
