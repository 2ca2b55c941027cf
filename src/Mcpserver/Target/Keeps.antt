-- ===== src/Mcpserver/Target/Keeps.antt =====
-- What becomes of a server's qconn client over its tools' calls.
use qnx8_qconn_mcp.Prelude.{
  ◌≡◌, refl, ap, ◌∙◌, some, inl, inr, Outcome, ok, err, state, Outcome-cases,
}
use qnx8_qconn_mcp.Qconn.Client.{Client}
use qnx8_qconn_mcp.Qconn.Exec.{D}
use qnx8_qconn_mcp.Mcpserver.Target.{ToolError, Target, client, cli, keep, on_target, on_dials}

module _ {P : Type 0} where
  -- A server that has a client hands it out, and dials no other.
  pub cli-connected : (c : Client P) (t : Target P) → t.conn ≡ some c → cli t ≡ ok c t
  unfolding cli client
  cli-connected c t e = rw e refl

  -- The server behind a call of its client that came to an outcome.
  abbrev handed :
      {E A : Type 0}
      → (E → ToolError)
      → Target P
      → Outcome E (Client P) A
      → Outcome ToolError (Target P) A
  handed wrap t (ok a c) = ok a (keep c t)
  handed wrap t (err e c) = err (wrap e) (keep c t)

  pub on_target-connected :
      {E A : Type 0} (wrap : E → ToolError) (m : Client P → Outcome E (Client P) A) (c : Client P)
      (t : Target P)
      → t.conn ≡ some c
      → on_target wrap m t ≡ handed wrap t (m c)
  unfolding on_target
  on_target-connected wrap m c t e =
      rw (cli-connected c t e, on_target)
        (elim (Outcome-cases (m c)) [ inl (a, c', q) ↦ rw q refl | inr (x, c', q) ↦ rw q refl ])

  -- A server that has a client keeps it over every call of a tool, one that fails included: it is then
  -- the client as the call has left it, and no connection is dialled for it; a call that makes
  -- connections of its own leaves the client as it was.
  pub on_target-conn :
      {E A B : Type 0} (wrap : E → ToolError) (m : Client P → Outcome E (Client P) A) (d : D P B)
      (c : Client P) (t : Target P)
      → t.conn ≡ some c
      → (state (on_target wrap m t) ≡ keep (state (m c)) t) × ((state (on_dials d t)).conn ≡ some c)
  unfolding on_dials
  on_target-conn wrap m d c t e =
      let kept : state (on_target wrap m t) ≡ keep (state (m c)) t =
        ap state (on_target-connected wrap m c t e)
        ∙ elim (Outcome-cases (m c)) [ inl (a, c', q) ↦ rw q refl | inr (x, c', q) ↦ rw q refl ] in
      let same_conn : (state (on_dials d t)).conn ≡ some c =
        rw (cli-connected c t e, state, on_dials)
          (elim (Outcome-cases (d t.later)) [
            | inl (a, later, q) ↦ rw q e
            | inr (x, later, q) ↦ rw q e
          ]) in
      (kept, same_conn)
