-- ===== src/Mockqnx/Qconn/Opened.antt =====
-- Files of the mock that the client opens and closes.
use qnx8_qconn_mcp.Prelude.{
  ℕ, ◌+◌, ◌^◌, ◌≤◌, ◌<◌, ◌≡◌, refl, ap, false, ◌∷◌, some, Bytes, length, All, Outcome, ◌>>=◌, codes,
  has_prefix, pos, arith,
}
use qnx8_qconn_mcp.Qconn.Client.{Client, file}
use qnx8_qconn_mcp.Qconn.File.{open_file, deferring}
use qnx8_qconn_mcp.Qconn.Transfer.{open_in}
use qnx8_qconn_mcp.Mockqnx.Qconn.{Session, contents, entry, find_fd, opened_session}
use qnx8_qconn_mcp.Mockqnx.Qconn.Serve.{Daemon}
use qnx8_qconn_mcp.Mockqnx.Qconn.Requests.{IsPathByte}
use qnx8_qconn_mcp.Mockqnx.Qconn.Answers.{handle}
use qnx8_qconn_mcp.Mockqnx.Qconn.Calls.{IsClient, Calls, open_file_lem, close_file_lem, ensure_file}

-- The mock with one more file open.
abbrev pub with_open : Bytes → Session → Session
with_open path s = record s {
  fds = (s.nfd + 3, record { path = path; is_proc = false }) ∷ s.fds;
  nfd = s.nfd + 1;
}

-- A path that is no node of a process, with numbers and rounds that suffice for opening it.
pub record IsPlainFile (n : ℕ) (path : Bytes) (s : Session) : Type 0 where
  pub written : All IsPathByte path
  pub some_ : (c : ℕ) × (rest : Bytes) × (path ≡ c ∷ rest)
  pub no_node : has_prefix path (codes "/proc/") ≡ false
  pub number : s.nfd + 3 < 2 ^ 63
  pub fits : length path + 128 ≤ n

-- Closing a file behind a result.
pub deferring-Calls :
    {E A : Type 0} (n fd : ℕ) (s : Session) (a : A) (result : Outcome E (Client Daemon) A)
    → 128 ≤ n
    → Calls n file s a result
    → Calls n file s a (deferring (pos fd) result)
unfolding deferring
deferring-Calls n fd s a result fits r =
    let closed = close_file_lem n s r.left r.client fd fits in
    record {
      left = closed.left;
      returned = rw r.returned (rw closed.returned);
      client = closed.client;
    }

entry-opened :
    (path : Bytes) (s : Session)
    → has_prefix path (codes "/proc/") ≡ false
    → (opened_session path (entry path s) s ≡ with_open path s)
      × ((entry path s).size ≡ length (contents path s))
unfolding entry
entry-opened path s h = (rw h, rw h)

-- A plain file is opened.
pub open_in-IsPlainFile :
    (n flags mode : ℕ) (path : Bytes) (s : Session) (cl : Client Daemon)
    → IsClient n file s cl
    → IsPlainFile n path s
    → flags < 2 ^ 63
    → mode < 2 ^ 63
    → length (contents path s) < 2 ^ 63
    → Calls n file
        (with_open path s)
        (handle (s.nfd + 3) (length (contents path s)) path)
        (open_in path flags mode cl)
unfolding open_in
open_in-IsPlainFile n flags mode path s cl h p hf hm hs =
    let (c, rest, e) = p.some_ in
    let (opened, size) = entry-opened path s p.no_node in
    let small : (entry path s).size < 2 ^ 63 = rw size hs in
    let fits : length rest + 128 ≤ n = omega (arith, p.fits, ap length e) in
    let call =
      open_file_lem n s cl h c rest flags mode (rw e at p.written) hf hm p.number (rw e at small)
        fits in
    let call' : Calls n file (opened_session path (entry path s) s)
        (handle (s.nfd + 3) ((entry path s).size) path) (open_file path flags mode cl) =
      rw e call in
    let entered = ensure_file n s cl h in rw (entered, ◌>>=◌) (rw (opened, size) at call')

-- An open file of the mock, which holds `bytes`.
pub record IsOpen (fd : ℕ) (bytes : Bytes) (s : Session) : Type 0 where
  pub path : Bytes
  pub found : find_fd fd s.fds ≡ some (record { path = path; is_proc = false })
  pub holds : contents path s ≡ bytes
  pub number : fd < 2 ^ 63

pub with_open-found :
    (path : Bytes) (s : Session)
    → find_fd (s.nfd + 3) (with_open path s).fds ≡ some (record { path = path; is_proc = false })
unfolding find_fd
with_open-found path s = ground arith

pub with_open-IsOpen :
    (path : Bytes) (s : Session)
    → s.nfd + 3 < 2 ^ 63
    → IsOpen (s.nfd + 3) (contents path s) (with_open path s)
unfolding contents
with_open-IsOpen path s h = record {
  path = path;
  found = with_open-found path s;
  holds = refl;
  number = h;
}
