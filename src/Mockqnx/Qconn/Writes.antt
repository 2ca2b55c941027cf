-- ===== src/Mockqnx/Qconn/Writes.antt =====
-- Whole files of the mock, written by the client: `WriteFile` and `WriteFileAt`.
use qnx8_qconn_mcp.Prelude.{
  ℕ, zero, suc, ◌+◌, ◌-◌, ◌%◌, ◌^◌, ◌≤◌, ◌<◌, ◌≡◌, refl, sym, ap, ◌∙◌, true, false, inl, inr,
  Bool-cases, ◌++◌, some, Bytes, ltb, leb, length, length-take, length-drop, take, drop, take-add,
  take-length, take-length-take, ltb→lt, ltb→le, lt→ltb, same, same_refl, lookup, insert,
  lookup-insert, Outcome, ok, pos, arith,
}
use qnx8_qconn_mcp.Qconn.Client.{Client, on_frame, file}
use qnx8_qconn_mcp.Qconn.File.{write_end, write_at}
use qnx8_qconn_mcp.Qconn.Transfer.{write_rounds}
use qnx8_qconn_mcp.Mockqnx.Qconn.{Session, contents, find_fd, store_vfile, overwrite}
use qnx8_qconn_mcp.Mockqnx.Qconn.Serve.{Daemon}
use qnx8_qconn_mcp.Mockqnx.Qconn.Chunks.{write_at-store_vfile}
use qnx8_qconn_mcp.Mockqnx.Qconn.Overwrite.{splice, overwrite-splice, stored, splice-stored}
use qnx8_qconn_mcp.Mockqnx.Qconn.Calls.{IsClient, Calls, on_frame-Frames}

-- A daemon after its file at `path` became `bytes`, all else being kept.
pub record Becomes (path bytes : Bytes) (s s' : Session) : Type 0 where
  pub holds : contents path s' ≡ bytes
  pub others : (j : Bytes) → same path j ≡ false → lookup j s'.files ≡ lookup j s.files
  pub fds : s'.fds ≡ s.fds
  pub nfd : s'.nfd ≡ s.nfd
  pub svc : s'.svc ≡ s.svc

-- What a call returns, with what it makes of the daemon's file.
pub record Leaves {E A : Type 0} (n : ℕ) (path bytes : Bytes) (s : Session) (a : A)
    (result : Outcome E (Client Daemon) A) : Type 0 where
  pub daemon : Session
  pub becomes : Becomes path bytes s daemon
  pub call : Calls n file daemon a result

pub Becomes-same :
    (path bytes : Bytes) (s : Session) → contents path s ≡ bytes → Becomes path bytes s s
Becomes-same path bytes s e = record {
  holds = e;
  others = λ j h. refl;
  fds = refl;
  nfd = refl;
  svc = refl;
}

-- The daemon with other bytes at a path.
abbrev with_file : Bytes → Bytes → Session → Session
with_file path bytes s = record s { files = insert path bytes s.files }

Becomes-with_file :
    (path a b c : Bytes) (s s' : Session)
    → Becomes path a s s'
    → b ≡ c
    → Becomes path c s (with_file path b s')
unfolding contents
Becomes-with_file path a b c s s' r e = record {
  holds = rw (lookup-insert path path b s'.files, contents) (rw (same_refl path) e);
  others = λ j h. lookup-insert path j b s'.files ∙ rw h (r.others j h);
  fds = r.fds;
  nfd = r.nfd;
  svc = r.svc;
}

-- How many bytes the next chunk takes.
abbrev part_size : ℕ → ℕ → ℕ
part_size i len = write_end i len - i

part_size_pos : (i len : ℕ) → i < len → 0 < part_size i len
part_size_pos i len h = ground arith

part_size_within : (i len : ℕ) → i ≤ len → i + part_size i len ≤ len
part_size_within i len h = ground arith

not_leb : (a b : ℕ) → b < a → leb a b ≡ false
not_leb a b h = ground arith

module _ (n fd off : ℕ) (path bytes : Bytes) (s : Session)
    (found : find_fd fd s.fds ≡ some (record { path = path; is_proc = false }))
    (number : fd < 2 ^ 63) (rounds : 128 ≤ n) (small : off + length bytes < 2 ^ 63) where
  -- What the file holds when `i` bytes are written.
  abbrev so_far : ℕ → Bytes
  so_far i = stored off (take i bytes) (contents path s)

  part : ℕ → Bytes
  part i = take (part_size i (length bytes)) (drop i bytes)

  length-part : (i : ℕ) → i ≤ length bytes → length (part i) ≡ part_size i (length bytes)
  unfolding part
  length-part i h = omega (
    arith,
    length-take (part_size i (length bytes)) (drop i bytes),
    length-drop i bytes,
    part_size_within i (length bytes) h,
  )

  so_far_next :
      (i : ℕ) (s' : Session)
      → i ≤ length bytes
      → 0 < length (part i)
      → contents path s' ≡ so_far i
      → overwrite (off + i) (part i) (contents path s') ≡ so_far (i + length (part i))
  unfolding part
  so_far_next i s' h some_ e =
      let k = part_size i (length bytes) in
      let first : length (take i bytes) ≡ i = omega (arith, length-take i bytes) in
      let more : take i bytes ++ part i ≡ take (i + length (part i)) bytes =
        ap (λ t. take i bytes ++ t) (sym (take-length-take k (drop i bytes)))
        ∙ take-add i (length (part i)) bytes in
      overwrite-splice (off + i) (part i) (contents path s')
      ∙ ap (splice (off + i) (part i)) e
      ∙ ap (λ j. splice (off + j) (part i) (so_far i)) (sym first)
      ∙ splice-stored off (take i bytes) (part i) (contents path s) some_
      ∙ ap (λ t. stored off t (contents path s)) more

  -- One write stores the next part.
  chunk_written :
      (i : ℕ) (s' : Session) (cl : Client Daemon)
      → i < length bytes
      → Becomes path (so_far i) s s'
      → IsClient n file s' cl
      → Leaves n path
          (so_far (i + length (part i)))
          s
          (pos (length (part i)))
          (on_frame (write_at (pos fd) (off + i) (part i)) cl)
  unfolding store_vfile
  chunk_written i s' cl h r c =
      let stored = overwrite (off + i) (part i) (contents path s') in
      let s'' = with_file path stored s' in
      let le : i ≤ length bytes = omega arith in
      let size = length-part i le in
      let within = part_size_within i (length bytes) le in
      let fits : leb (2 ^ 63) (off + i + length (part i)) ≡ false =
        not_leb _ _ (omega (arith, size)) in
      let there : find_fd fd s'.fds ≡ some (record { path = path; is_proc = false }) =
        ap (find_fd fd) r.fds ∙ found in
      let stores : store_vfile fd (off + i) (part i) s' ≡ some s'' =
        rw (there, store_vfile) (rw fits) in
      let some_ : 0 < length (part i) = omega (arith, size, part_size_pos i (length bytes) h) in
      let framed =
        write_at-store_vfile n fd (off + i) (part i) s' s'' cl.fc c.linked rounds c.agreed c.agreed
          number (omega arith) some_ (omega (arith, size)) stores in
      record {
        daemon = s'';
        becomes =
            Becomes-with_file path (so_far i) stored _ s s' r (so_far_next i s' le some_ r.holds);
        call =
            on_frame-Frames n file s' s'' (pos (length (part i)))
              (write_at (pos fd) (off + i) (part i)) cl c c.agreed framed;
      }

  -- One round of the loop.
  write_round :
      (k i : ℕ) (cl left : Client Daemon)
      → ltb i (length bytes) ≡ true
      → off + i < 2 ^ 64
      → 0 < length (part i)
      → on_frame (write_at (pos fd) (off + i) (part i)) cl ≡ ok (pos (length (part i))) left
      → write_rounds (suc k) (pos fd) off bytes i cl
        ≡ write_rounds k (pos fd) off bytes (i + length (part i)) left
  unfolding write_rounds part
  write_round k i cl left e fits some_ r =
      let at : (off + i) % 2 ^ 64 ≡ off + i = omega arith in
      rw (e, at) (rw (r, write_rounds) (rw (lt→ltb 0 (length (part i)) some_)))

  -- The loop writes what is left.
  pub write_rounds_lem :
      (k i : ℕ) (s' : Session) (cl : Client Daemon)
      → i ≤ length bytes
      → length bytes < k + i
      → Becomes path (so_far i) s s'
      → IsClient n file s' cl
      → Leaves n path
          (stored off bytes (contents path s))
          s
          (length bytes)
          (write_rounds k (pos fd) off bytes i cl)
  unfolding write_rounds part
  write_rounds_lem zero i s' cl le enough r c = absurd (omega arith)
  write_rounds_lem (suc k) i s' cl le enough r c = elim (Bool-cases (ltb i (length bytes))) [
    | inr e ↦
        let done : i ≡ length bytes = omega (arith, ltb→le i (length bytes) e) in
        let whole : so_far i ≡ stored off bytes (contents path s) =
          ap (λ t. stored off t (contents path s)) (take-length i bytes (omega arith)) in
        record {
          daemon = s';
          becomes = rw whole at r;
          call = record { left = cl; returned = rw e (ap (λ j. ok j cl) done); client = c };
        }
    | inl e ↦
        let less = ltb→lt i (length bytes) e in
        let wrote = chunk_written i s' cl less r c in
        let size = length-part i le in
        let within = part_size_within i (length bytes) le in
        let some_ : 0 < length (part i) =
          omega (arith, size, part_size_pos i (length bytes) less) in
        let rest =
          write_rounds_lem k (i + length (part i)) wrote.daemon wrote.call.left
            (omega (arith, size, within)) (omega (arith, some_)) wrote.becomes wrote.call.client in
        record {
          daemon = rest.daemon;
          becomes = rest.becomes;
          call = record {
            left = rest.call.left;
            returned =
                write_round k i cl wrote.call.left e (omega arith) some_ wrote.call.returned
                ∙ rest.call.returned;
            client = rest.call.client;
          };
        }
  ]
