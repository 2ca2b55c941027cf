-- ===== src/Mcpserver/Debug/Signals.antt =====
-- The signal table that `qconn_debug_handle_signal` keeps.
use qnx8_qconn_mcp.Prelude.{
  ℕ, ◌+◌, ◌≤◌, ◌≡◌, refl, ap, ◌∙◌, Bool, false, some, Bytes, ◌==◌, if◌then◌else◌, get_elem?,
  get_elem?-set, lookup, lookup-insert, same_refl, ℤ, pos, Outcome, ok, err, state, arith,
  Outcome-cases, inl, inr, All-lookup,
}
use qnx8_qconn_mcp.Qnxdbg.Info.{handle_sig}
use qnx8_qconn_mcp.Mcpserver.Sessions.{
  Session, Server, Error, table_or_default, signal_table, signal_place, put_back, is_no_signal,
  dispose,
}
use qnx8_qconn_mcp.Mcpserver.Sessions.Invariant.{
  IsEntry, IsValid, IsTable, table_or_default-IsTable,
}
use qnx8_qconn_mcp.Mcpserver.Sessions.Uses.{on_session_there}
use qnx8_qconn_mcp.Mcpserver.Debug.{send_table, debug_handle_signal}

-- A session whose table is as before but for signal `n`: signal 1 stands at place 0.
pub record Disposed {P : Type 0} (n : ℕ) (stop_ : Bool) (id : Bytes) (before : Session P)
    (s' : Server P) : Type 0 where
  pub after : Session P
  pub known : lookup id s'.sessions ≡ some after
  pub process : after.pid ≡ before.pid
  pub dispositions :
      (k : ℕ)
      → get_elem? (signal_table after) k
        ≡ (if k + 1 == n then some (if stop_ then 1 else 0) else get_elem? (signal_table before) k)

same_place : (n k : ℕ) → 1 ≤ n → (signal_place (pos n) == k) ≡ (k + 1 == n)
same_place n k h = ground arith

is_no_signal_within : (n : ℕ) → 1 ≤ n → n ≤ 72 → is_no_signal (pos n) ≡ false
is_no_signal_within n low high = ground arith

get_elem?-dispose :
    (n : ℕ) (stop_ : Bool) (t : Bytes) (k : ℕ)
    → 1 ≤ n
    → n ≤ 72
    → IsTable t
    → get_elem? (table_or_default (some (dispose (pos n) stop_ t))) k
      ≡ (if k + 1 == n then some (if stop_ then 1 else 0) else get_elem? t k)
unfolding table_or_default
get_elem?-dispose n stop_ t k low high w =
    get_elem?-set t (signal_place (pos n)) k (if stop_ then 1 else 0) (omega (arith, w.0))
    ∙ ap (λ b. if b then some (if stop_ then 1 else 0) else get_elem? t k) (same_place n k low)

module _ {P : Type 0} where
  sent_table :
      (sig : ℤ) (stop_ : Bool) (sess : Session P)
      → ((state (send_table sig stop_ sess)).sig_table
          ≡ some (dispose sig stop_ (signal_table sess)))
        × ((state (send_table sig stop_ sess)).pid ≡ sess.pid)
  sent_table sig stop_ sess =
      elim (Outcome-cases (handle_sig (dispose sig stop_ (signal_table sess)) sess.client)) [
        | inl (u, c, e) ↦ rw (e, state) (refl, refl)
        | inr (x, c, e) ↦ rw (e, state) (refl, refl)
      ]

  put_back-there :
      {A : Type 0} (id : Bytes) (s : Server P) (o : Outcome Error (Session P) A)
      → lookup id (state (put_back id s o)).sessions ≡ some (state o)
  put_back-there id s (ok a sess) = lookup-insert id id sess s.sessions ∙ rw (same_refl id)
  put_back-there id s (err e sess) = lookup-insert id id sess s.sessions ∙ rw (same_refl id)

  -- For a signal from 1 to 72 and a known session of a well-formed server, the tool sets the
  -- disposition of that signal, which stands at its number less one in the table, to 1 to stop on it
  -- and to 0 to pass it on, and leaves those of all other signals and the process id as they were,
  -- also where the target refuses the table.
  pub debug_handle_signal-Disposed :
      (id : Bytes) (n : ℕ) (stop_ : Bool) (s : Server P) (sess : Session P)
      → IsValid s
      → lookup id s.sessions ≡ some sess
      → 1 ≤ n
      → n ≤ 72
      → Disposed n stop_ id sess (state (debug_handle_signal id (pos n) stop_ s))
  unfolding debug_handle_signal
  debug_handle_signal-Disposed id n stop_ s sess v h low high =
      let sig = pos n in
      let r = is_no_signal_within n low high in
      let o = send_table sig stop_ sess in
      let known = All-lookup (IsEntry s.sequence) id s.sessions v.entries h in
      let whole : IsTable (signal_table sess) = table_or_default-IsTable sess.sig_table known.1 in
      let (table, process) = sent_table sig stop_ sess in
      rw r (
        rw (on_session_there id (send_table sig stop_) s h) (record {
          after = state o;
          known = put_back-there id s o;
          process = process;
          dispositions = λ k.
              ap (λ t. get_elem? (table_or_default t) k) table
              ∙ get_elem?-dispose n stop_ (signal_table sess) k low high whole;
        }))
