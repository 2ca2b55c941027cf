-- ===== src/Mockqnx/Rsp/Exchange.antt =====
-- A command of the client, served by the stub.
use qnx8_qconn_mcp.Prelude.{
  ◌≡◌, refl, ◌∙◌, Bool, true, false, [], ◌∷◌, ◌++◌, append-nil, some, Bytes, AreBytes,
  if◌then◌else◌, ok, Outcome, ◌>>=◌, arith,
}
use qnx8_qconn_mcp.Wire.{Conn, deliver}
use qnx8_qconn_mcp.Debug.Rsp.{
  Rsp, Error, set_input, put, packet, next_ack, read_ack, send_attempts, send_packet, read_packet,
  command,
}
use qnx8_qconn_mcp.Debug.Rsp.Packets.{acked, put_writes, read_packet-packet}
use qnx8_qconn_mcp.Mockqnx.Rsp.{rsp_handle, Stub, react}
use qnx8_qconn_mcp.Mockqnx.Rsp.Interop.{IsIdle, react-noise, react-packet}

-- A client of an idle stub, with nothing left to read, whose writes go out.
pub record IsReady (r : Rsp Stub) : Type 0 where
  pub idle : IsIdle r.conn.peer
  pub serves : r.conn.react ≡ react
  pub quiet : r.conn.input ≡ []
  pub no_faults : r.conn.faults ≡ []

-- The client behind its packet: the acknowledgement and the reply wait to be read.
abbrev asked : Bytes → Bytes → Rsp Stub → Rsp Stub
asked p resp r = record r {
  conn = record {
    react = react;
    peer = record { buffer = []; closed = false };
    input = b'+' ∷ packet resp;
    sent = r.conn.sent ++ packet p ∷ [];
    faults = [];
    ending = r.conn.ending;
  };
}

put-asked :
    (p resp : Bytes) (r : Rsp Stub)
    → IsReady r
    → AreBytes p
    → rsp_handle p ≡ some resp
    → put (packet p) r ≡ ok tt (asked p resp r)
unfolding deliver
put-asked p resp r ready hp e =
    put_writes (packet p) r (rw ready.no_faults)
    ∙ rw (ready.serves, ready.quiet, ready.no_faults)
        (rw (react-packet r.conn.peer p resp ready.idle hp e))

-- What is read before the reply: the acknowledgement, unless in no-ack mode.
abbrev acknowledged : Bytes → Bytes → Rsp Stub → Rsp Stub
acknowledged p resp r =
    if r.no_ack then asked p resp r else set_input (packet resp) (asked p resp r)

ok_either :
    (b : Bool) (x y : Rsp Stub)
    → if◌then◌else◌ {A = Outcome Error (Rsp Stub) (Unit {0})} b (ok tt x) (ok tt y)
      ≡ ok tt (if b then x else y)
ok_either true x y = refl
ok_either false x y = refl

send_packet-acknowledged :
    (p resp : Bytes) (r : Rsp Stub)
    → IsReady r
    → AreBytes p
    → rsp_handle p ≡ some resp
    → send_packet p r ≡ ok tt (acknowledged p resp r)
unfolding send_packet send_attempts read_ack next_ack
send_packet-acknowledged p resp r ready hp e =
    rw (put-asked p resp r ready hp e, send_attempts)
      (ok_either r.no_ack (asked p resp r) (set_input (packet resp) (asked p resp r)))

hears_ack :
    react (record { buffer = []; closed = false }) (b'+' ∷ [])
    ≡ (record { buffer = b'+' ∷ []; closed = false }, [])
hears_ack =
    react-noise (record { buffer = []; closed = false }) (b'+' ∷ []) (refl, tt) (omega arith, tt)

-- The reply is read and acknowledged, and the stub is idle again.
reply_read :
    (no_ack : Bool) (p resp : Bytes) (c : Conn Stub)
    → AreBytes resp
    → (r' : Rsp Stub) × (read_packet (acknowledged p resp (record { conn = c; no_ack = no_ack }))
        ≡ ok resp r')
      × IsReady r'
reply_read true p resp c h =
    let r = asked p resp (record { conn = c; no_ack = true }) in
    (
      acked [] r,
      read_packet-packet (b'+' ∷ []) resp [] r (omega arith, tt) h refl
          (rw (append-nil (packet resp))),
      record { idle = (refl, tt); serves = refl; quiet = refl; no_faults = refl },
    )
reply_read false p resp c h =
    let r = set_input (packet resp) (asked p resp (record { conn = c; no_ack = false })) in
    (
      acked [] r,
      read_packet-packet [] resp [] r tt h refl (rw (append-nil (packet resp))),
      unfold deliver in
          record {
            idle = rw hears_ack (refl, (omega arith, tt));
            serves = refl;
            quiet = rw hears_ack;
            no_faults = refl;
          },
    )

-- Against the stub, in either acknowledgement mode, a command for which the stub has a reply
-- returns exactly that reply, and leaves client and stub ready for the next one; for a command and
-- a reply of bytes.
pub command-rsp_handle :
    (p resp : Bytes) (r : Rsp Stub)
    → IsReady r
    → AreBytes p
    → AreBytes resp
    → rsp_handle p ≡ some resp
    → (r' : Rsp Stub) × (command p r ≡ ok resp r') × IsReady r'
unfolding command
command-rsp_handle p resp r ready hp h e =
    rw (send_packet-acknowledged p resp r ready hp e, ◌>>=◌) (reply_read r.no_ack p resp r.conn h)
