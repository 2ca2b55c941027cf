-- ===== src/Mcpserver/Debug/Calls/Balance.antt =====
-- How many sessions and closed clients there are, and how many clients were dialled.
use qnx8_qconn_mcp.Prelude.{
  ℕ, ◌+◌, ◌≡◌, refl, ap, ◌∙◌, false, List, [], ◌∷◌, Option, none, some, Bytes, drop, length, same,
  same_refl, same_sound, to_decimal_injective, lookup, length-insert-known, length-insert-new,
  length-remove, All-lookup, ℤ, pos, state, arith, Bool-cases, Option-cases, Outcome-cases, inl,
  inr,
}
use qnx8_qconn_mcp.Qnxdbg.Client as Dbg
use qnx8_qconn_mcp.Qnxdbg.Commands
use qnx8_qconn_mcp.Qnxdbg.Launch
use qnx8_qconn_mcp.Mcpserver.Sessions.{Session, Server, session_id, add_session}
use qnx8_qconn_mcp.Mcpserver.Sessions.Invariant.{IsEntry, IsValid}
use qnx8_qconn_mcp.Mcpserver.Debug.{debug_attach, debug_launch}
use qnx8_qconn_mcp.Mcpserver.Debug.Calls.{
  Call, attach, launch, read_registers, read_memory, write_memory, resume, step, break_set,
  break_clear, write_registers, select_thread, mapinfo, handle_signal, target_info, threads, detach,
  run,
}
use qnx8_qconn_mcp.Mcpserver.Debug.Calls.Effects.{
  touch, Effect, unchanged, touched, added, closed, removed, run-Effect,
}

-- The clients that a server has: those of its sessions, and those it has closed.
abbrev pub held : {P : Type 0} → Server P → ℕ
held s = length s.sessions + length s.closed

-- The clients that a call was given.
abbrev pub dialed : {P : Type 0} → Option (Dbg.Client P) → ℕ
dialed none = 0
dialed (some cl) = 1

abbrev pub dialed_by_call : {P : Type 0} → Call P → ℕ
dialed_by_call (attach cl pid) = dialed cl
dialed_by_call (launch cl path args) = dialed cl
dialed_by_call _ = 0

abbrev pub dialed_by : {P : Type 0} → List (Call P) → ℕ
dialed_by [] = 0
dialed_by (c ∷ cs) = dialed_by_call c + dialed_by cs

-- A session id gives its number away.
session_id_injective : (a b : ℕ) → session_id a ≡ session_id b → a ≡ b
unfolding session_id
session_id_injective a b h = to_decimal_injective a b (ap (λ s. drop 4 s) h)

module _ {P : Type 0} where
  -- No number given out later makes a known id.
  pub new-same :
      (j : Bytes) (s : Server P) {sess : Session P}
      → IsValid s
      → lookup j s.sessions ≡ some sess
      → same (session_id (s.sequence + 1)) j ≡ false
  new-same j s v h =
      let ((k, low, high, id), ok_) = All-lookup (IsEntry s.sequence) j s.sessions v.entries h in
      elim (Bool-cases (same (session_id (s.sequence + 1)) j)) [
        | inr f ↦ f
        | inl t ↦
            let e = session_id_injective (s.sequence + 1) k (same_sound _ j t ∙ id) in
            absurd (omega arith)
      ]

  new_id : (s : Server P) → IsValid s → lookup (session_id (s.sequence + 1)) s.sessions ≡ none
  new_id s v = elim (Option-cases (lookup (session_id (s.sequence + 1)) s.sessions)) [
    | inl e ↦ e
    | inr (sess, e) ↦
        let other = new-same (session_id (s.sequence + 1)) s v e in
        let itself = same_refl (session_id (s.sequence + 1)) in absurd (cc)
  ]

  held-add_session :
      (c : Dbg.Client P) (pid : ℤ) (s : Server P)
      → IsValid s
      → held (add_session c pid s).1 ≡ held s + 1
  unfolding add_session
  held-add_session c pid s v =
      omega (arith, length-insert-new (session_id (s.sequence + 1)) _ s.sessions (new_id s v))

  held-touch :
      (id : Bytes) (g : Session P → Session P) (s : Server P) → held (touch id g s) ≡ held s
  held-touch id g s = elim (Option-cases (lookup id s.sessions)) [
    | inl e ↦ rw (e, touch) refl
    | inr (sess, e) ↦
        rw (e, touch)
          (ap (λ n. n + length s.closed) (length-insert-known id (g sess) sess s.sessions e))
  ]

  -- A call that names a session keeps the number.
  Effect-held :
      (id : Bytes) (s : Server P) {s' : Server P} → Effect s (some id) s' → held s' ≡ held s
  Effect-held id s (unchanged e) = ap held e
  Effect-held id s (touched i g q k e) = ap held e ∙ held-touch i g s
  Effect-held id s (added c pid q e) = cc
  Effect-held id s (closed c q e) = cc
  Effect-held id s (removed i c q n e) = elim (Option-cases (lookup i s.sessions)) [
    | inl m ↦ absurd (n m)
    | inr (sess, m) ↦ ap held e ∙ omega (arith, length-remove i sess s.sessions m)
  ]

  held-debug_attach :
      (cl : Option (Dbg.Client P)) (pid : ℤ) (s : Server P)
      → IsValid s
      → held (state (debug_attach cl pid s)) ≡ held s + dialed cl
  unfolding debug_attach
  held-debug_attach none pid s v = omega arith
  held-debug_attach (some cl) pid s v = elim (Outcome-cases (Commands.attach pid cl)) [
    | inl (u, cl', e) ↦ rw (e, state) (held-add_session _ pid s v)
    | inr (x, cl', e) ↦ rw (e, state) (omega arith)
  ]

  held-debug_launch :
      (cl : Option (Dbg.Client P)) (path : Bytes) (args : List Bytes) (s : Server P)
      → IsValid s
      → held (state (debug_launch cl path args s)) ≡ held s + dialed cl
  unfolding debug_launch
  held-debug_launch none path args s v = omega arith
  held-debug_launch (some cl) path args s v =
      elim (Outcome-cases (Launch.launch path args none cl)) [
        | inl (res, cl', e) ↦ rw (e, state) (held-add_session _ (pos res.pid) s v)
        | inr (x, cl', e) ↦ rw (e, state) (omega arith)
      ]

  held-named :
      (id : Bytes) (s : Server P) {s' : Server P} → Effect s (some id) s' → held s' ≡ held s + 0
  held-named id s e = omega (arith, Effect-held id s e)

  pub held-run :
      (call : Call P) (s : Server P) → IsValid s → held (run call s) ≡ held s + dialed_by_call call
  held-run (attach cl pid) s v = unfold run in held-debug_attach cl pid s v
  held-run (launch cl path args) s v = unfold run in held-debug_launch cl path args s v
  held-run (read_registers id) s v = held-named id s (run-Effect (read_registers id) s)
  held-run (read_memory id addr n) s v = held-named id s (run-Effect (read_memory id addr n) s)
  held-run (write_memory id addr hex) s v =
      held-named id s (run-Effect (write_memory id addr hex) s)
  held-run (resume id) s v = held-named id s (run-Effect (resume id) s)
  held-run (step id) s v = held-named id s (run-Effect (step id) s)
  held-run (break_set id addr) s v = held-named id s (run-Effect (break_set id addr) s)
  held-run (break_clear id addr) s v = held-named id s (run-Effect (break_clear id addr) s)
  held-run (write_registers id offset hex) s v =
      held-named id s (run-Effect (write_registers id offset hex) s)
  held-run (select_thread id tid) s v = held-named id s (run-Effect (select_thread id tid) s)
  held-run (mapinfo id) s v = held-named id s (run-Effect (mapinfo id) s)
  held-run (handle_signal id sig stop_) s v =
      held-named id s (run-Effect (handle_signal id sig stop_) s)
  held-run (target_info id) s v = held-named id s (run-Effect (target_info id) s)
  held-run (threads id) s v = held-named id s (run-Effect (threads id) s)
  held-run (detach id) s v = held-named id s (run-Effect (detach id) s)
