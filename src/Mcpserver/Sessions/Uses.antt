-- ===== src/Mcpserver/Sessions/Uses.antt =====
-- The use of a session by a tool: the named one, and no other.
use qnx8_qconn_mcp.Prelude.{
  ◌≡◌, refl, ◌∙◌, false, none, some, Bytes, lookup, lookup-insert, same, Outcome, ok, err, state,
  Option-cases, inl, inr,
}
use qnx8_qconn_mcp.Mcpserver.Sessions.{
  Session, Server, Error, unknown_session, get_session, put_back, on_session,
}

module _ {P : Type 0} where
  pub get_session_missing :
      (id : Bytes) (s : Server P)
      → lookup id s.sessions ≡ none
      → get_session id s ≡ err (unknown_session id) s
  unfolding get_session
  get_session_missing id s e = rw (e, get_session)

  pub get_session_there :
      (id : Bytes) (s : Server P) {sess : Session P}
      → lookup id s.sessions ≡ some sess
      → get_session id s ≡ ok sess s
  unfolding get_session
  get_session_there id s e = rw (e, get_session)

  pub on_session_missing :
      {A : Type 0} (id : Bytes) (use_ : Session P → Outcome Error (Session P) A) (s : Server P)
      → lookup id s.sessions ≡ none
      → on_session id use_ s ≡ err (unknown_session id) s
  unfolding on_session
  on_session_missing id use_ s e = rw (get_session_missing id s e, on_session)

  pub on_session_there :
      {A : Type 0} (id : Bytes) (use_ : Session P → Outcome Error (Session P) A) (s : Server P)
      {sess : Session P}
      → lookup id s.sessions ≡ some sess
      → on_session id use_ s ≡ put_back id s (use_ sess)
  unfolding on_session
  on_session_there id use_ s e = rw (get_session_there id s e, on_session)

  put_back-lookup :
      {A : Type 0} (id j : Bytes) (s : Server P) (o : Outcome Error (Session P) A)
      → same id j ≡ false
      → lookup j (state (put_back id s o)).sessions ≡ lookup j s.sessions
  put_back-lookup id j s (ok a sess) h = lookup-insert id j sess s.sessions ∙ rw h
  put_back-lookup id j s (err e sess) h = lookup-insert id j sess s.sessions ∙ rw h

  -- The other sessions are left alone.
  pub on_session_isolates :
      {A : Type 0} (id j : Bytes) (use_ : Session P → Outcome Error (Session P) A) (s : Server P)
      → same id j ≡ false
      → lookup j (state (on_session id use_ s)).sessions ≡ lookup j s.sessions
  on_session_isolates id j use_ s h = elim (Option-cases (lookup id s.sessions)) [
    | inl e ↦ rw (on_session_missing id use_ s e) refl
    | inr (sess, e) ↦ rw (on_session_there id use_ s e) (put_back-lookup id j s (use_ sess) h)
  ]
