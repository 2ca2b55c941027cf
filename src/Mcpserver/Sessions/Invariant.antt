-- ===== src/Mcpserver/Sessions/Invariant.antt =====
-- What holds of the debug sessions between two calls.
use qnx8_qconn_mcp.Prelude.{
  ℕ, zero, suc, ◌+◌, ◌≤◌, ◌<◌, ◌≡◌, refl, ap, ◌∙◌, Bool, true, false, List, [], ◌∷◌, Option, none,
  some, Bytes, length, All, set, remove, Distinct, Distinct-insert, Distinct-remove, All-insert,
  All-remove, ℤ, pos, negsuc, arith,
}
use qnx8_qconn_mcp.Qnxdbg.Client as Dbg
use qnx8_qconn_mcp.Mcpserver.Sessions.{
  Session, Server, table_or_default, session_id, add_session, keep, close, dispose,
}

-- A disposition is 0 or 1.
abbrev pub IsFlag : ℕ → Type 0
IsFlag b = b < 2

abbrev pub IsTable : Bytes → Type 0
IsTable t = (length t ≡ 72) × All IsFlag t

abbrev pub IsOptionTable : Option Bytes → Type 0
IsOptionTable none = Unit
IsOptionTable (some t) = IsTable t

abbrev pub IsSession : {P : Type 0} → Session P → Type 0
IsSession s = IsOptionTable s.sig_table

-- A session under a number that was given out.
abbrev pub IsEntry : {P : Type 0} → ℕ → Bytes × Session P → Type 0
IsEntry last (id, sess) = ((k : ℕ) × (1 ≤ k) × (k ≤ last) × (id ≡ session_id k)) × IsSession sess

pub record IsValid {P : Type 0} (s : Server P) : Type 0 where
  pub entries : All (IsEntry s.sequence) s.sessions
  pub distinct : Distinct s.sessions

set-IsFlag : (t : Bytes) (i v : ℕ) → IsFlag v → All IsFlag t → All IsFlag (set t i v)
set-IsFlag [] i v q h = h
set-IsFlag (x ∷ t) zero v q h = (q, h.1)
set-IsFlag (x ∷ t) (suc i) v q h = (h.0, set-IsFlag t i v q h.1)

length-set : (t : Bytes) (i v : ℕ) → length (set t i v) ≡ length t
length-set [] i v = refl
length-set (x ∷ t) zero v = refl
length-set (x ∷ t) (suc i) v = ap suc (length-set t i v)

pub table_or_default-IsTable : (t : Option Bytes) → IsOptionTable t → IsTable (table_or_default t)
unfolding table_or_default
table_or_default-IsTable none h = (refl, omega arith)
table_or_default-IsTable (some t) h = h

pub dispose-IsTable :
    (sig : ℤ) (stop_ : Bool) (t : Bytes) → IsTable t → IsTable (dispose sig stop_ t)
dispose-IsTable (pos n) true t h = (length-set t _ _ ∙ h.0, set-IsFlag t _ _ (omega arith) h.1)
dispose-IsTable (pos n) false t h = (length-set t _ _ ∙ h.0, set-IsFlag t _ _ (omega arith) h.1)
dispose-IsTable (negsuc n) true t h = (length-set t _ _ ∙ h.0, set-IsFlag t _ _ (omega arith) h.1)
dispose-IsTable (negsuc n) false t h = (length-set t _ _ ∙ h.0, set-IsFlag t _ _ (omega arith) h.1)

module _ {P : Type 0} where
  later-IsEntry :
      (n : ℕ) (m : List (Bytes × Session P)) → All (IsEntry n) m → All (IsEntry (n + 1)) m
  later-IsEntry n [] h = tt
  later-IsEntry n (e ∷ m) h =
      let ((k, low, high, id), sess) = h.0 in
      (((k, low, omega arith, id), sess), later-IsEntry n m h.1)

  pub add_session-IsValid :
      (c : Dbg.Client P) (pid : ℤ) (s : Server P) → IsValid s → IsValid (add_session c pid s).1
  unfolding add_session
  add_session-IsValid c pid s v =
      let n = s.sequence + 1 in
      record {
        entries =
            All-insert (IsEntry n) (session_id n) _ s.sessions
              ((n, omega arith, omega arith, refl), tt)
              (later-IsEntry s.sequence s.sessions v.entries);
        distinct = Distinct-insert (session_id n) _ s.sessions v.distinct;
      }

  pub close-IsValid : (c : Dbg.Client P) (s : Server P) → IsValid s → IsValid (close c s)
  close-IsValid c s v = record { entries = v.entries; distinct = v.distinct }

  pub remove-IsValid :
      (id : Bytes) (s : Server P)
      → IsValid s
      → IsValid (record s { sessions = remove id s.sessions })
  remove-IsValid id s v = record {
    entries = All-remove (IsEntry s.sequence) id s.sessions v.entries;
    distinct = Distinct-remove id s.sessions v.distinct;
  }

  -- A known session replaced by a well-formed one.
  pub keep-IsValid :
      (id : Bytes) (s : Server P) (sess : Session P)
      → IsValid s
      → ((k : ℕ) × (1 ≤ k) × (k ≤ s.sequence) × (id ≡ session_id k))
      → IsSession sess
      → IsValid (keep id sess s)
  keep-IsValid id s sess v known h = record {
    entries = All-insert (IsEntry s.sequence) id sess s.sessions (known, h) v.entries;
    distinct = Distinct-insert id sess s.sessions v.distinct;
  }
