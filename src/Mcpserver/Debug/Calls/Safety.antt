-- ===== src/Mcpserver/Debug/Calls/Safety.antt =====
-- What holds of the debug sessions whatever a client calls.
use qnx8_qconn_mcp.Prelude.{
  ◌+◌, ◌≡◌, ◌≢◌, refl, ap, ◌∙◌, false, List, [], ◌∷◌, Option, some, Bytes, same, same_sound, lookup,
  remove, lookup-insert, lookup-remove, All-lookup, arith, Bool-cases, Option-cases, inl, inr,
}
use qnx8_qconn_mcp.Mcpserver.Sessions.{Session, Server, session_id, add_session}
use qnx8_qconn_mcp.Mcpserver.Sessions.Invariant.{
  IsEntry, IsValid, add_session-IsValid, close-IsValid, remove-IsValid, keep-IsValid,
}
use qnx8_qconn_mcp.Mcpserver.Debug.Calls.{Call, named, run, run_all, started}
use qnx8_qconn_mcp.Mcpserver.Debug.Calls.Balance.{new-same, held, dialed_by, held-run}
use qnx8_qconn_mcp.Mcpserver.Debug.Calls.Effects.{
  touch, Keeps, Effect, unchanged, touched, added, closed, removed, run-Effect,
}

other-same : {i j : Bytes} → some i ≢ some j → same i j ≡ false
other-same {i} {j} h = elim (Bool-cases (same i j)) [
  | inr f ↦ f
  | inl t ↦ absurd (h (ap some (same_sound i j t)))
]

module _ {P : Type 0} where
  touch-IsValid :
      (id : Bytes) (g : Session P → Session P) (s : Server P)
      → Keeps g
      → IsValid s
      → IsValid (touch id g s)
  touch-IsValid id g s k v = elim (Option-cases (lookup id s.sessions)) [
    | inl e ↦ rw (e, touch) v
    | inr (sess, e) ↦
        let known = All-lookup (IsEntry s.sequence) id s.sessions v.entries e in
        rw (e, touch) (keep-IsValid id s (g sess) v known.0 (k sess known.1))
  ]

  Effect-IsValid :
      (s : Server P) (id : Option Bytes) {s' : Server P} → IsValid s → Effect s id s' → IsValid s'
  Effect-IsValid s id v (unchanged e) = rw e v
  Effect-IsValid s id v (touched i g q k e) = rw e (touch-IsValid i g s k v)
  Effect-IsValid s id v (added c pid q e) = rw e (add_session-IsValid c pid s v)
  Effect-IsValid s id v (closed c q e) = rw e (close-IsValid c s v)
  Effect-IsValid s id v (removed i c q n e) =
      rw e (close-IsValid c (record s { sessions = remove i s.sessions }) (remove-IsValid i s v))

  all-IsValid : (cs : List (Call P)) (s : Server P) → IsValid s → IsValid (run_all cs s)
  unfolding run_all
  all-IsValid [] s v = v
  all-IsValid (c ∷ cs) s v =
      all-IsValid cs (run c s) (Effect-IsValid s (named c) v (run-Effect c s))

  held-run_all :
      (cs : List (Call P)) (s : Server P) → IsValid s → held (run_all cs s) ≡ held s + dialed_by cs
  unfolding run_all
  held-run_all [] s v = omega arith
  held-run_all (c ∷ cs) s v =
      let later = held-run_all cs (run c s) (Effect-IsValid s (named c) v (run-Effect c s)) in
      omega (arith, later, held-run c s v)

  -- Whatever tools are called from the start on, in whatever order, with whatever arguments, and
  -- however the targets answer: the sessions and the closed clients are together exactly as many as
  -- the clients that were dialled; no id stands twice, and each has a number that was given out; and
  -- the signal table of a session, once it is used, has one 0 or 1 for each of the 72 signals.
  pub run_all-IsValid :
      (cs : List (Call P))
      → IsValid (run_all cs started) × (held (run_all cs started) ≡ dialed_by cs)
  run_all-IsValid cs =
      let v : IsValid started = record { entries = tt; distinct = tt } in
      (all-IsValid cs started v, omega (arith, held-run_all cs started v))

  touch-lookup :
      (i j : Bytes) (g : Session P → Session P) (s : Server P)
      → same i j ≡ false
      → lookup j (touch i g s).sessions ≡ lookup j s.sessions
  touch-lookup i j g s h = elim (Option-cases (lookup i s.sessions)) [
    | inl e ↦ rw (e, touch) refl
    | inr (sess, e) ↦ rw (e, touch) (lookup-insert i j (g sess) s.sessions ∙ rw h)
  ]

  Effect_isolates :
      (s : Server P) (id : Option Bytes) (j : Bytes) {s' : Server P} {sess : Session P}
      → IsValid s
      → id ≢ some j
      → lookup j s.sessions ≡ some sess
      → Effect s id s'
      → lookup j s'.sessions ≡ some sess
  unfolding add_session
  Effect_isolates s id j v ne h (unchanged e) = rw e h
  Effect_isolates s id j v ne h (touched i g q k e) =
      rw e (touch-lookup i j g s (other-same (λ t. ne (q ∙ t))) ∙ h)
  Effect_isolates s id j v ne h (added c pid q e) =
      rw e (lookup-insert (session_id (s.sequence + 1)) j _ s.sessions ∙ rw (new-same j s v h) h)
  Effect_isolates s id j v ne h (closed c q e) = rw e h
  Effect_isolates s id j v ne h (removed i c q n e) =
      rw e (lookup-remove i j s.sessions v.distinct ∙ rw (other-same (λ t. ne (q ∙ t))) h)

  -- A call changes no session but the one that it names: another known session is known afterwards
  -- too, with its client, its process and its signal table as they were, on every outcome of the
  -- call; an attach or a launch changes none at all.
  pub run_isolates :
      (call : Call P) (j : Bytes) (s : Server P) {sess : Session P}
      → IsValid s
      → named call ≢ some j
      → lookup j s.sessions ≡ some sess
      → lookup j (run call s).sessions ≡ some sess
  run_isolates call j s v ne h = Effect_isolates s (named call) j v ne h (run-Effect call s)
