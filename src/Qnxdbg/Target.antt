-- ===== src/Qnxdbg/Target.antt =====
-- What a debug target promises of its memory: the interface that `ReadMemory` and `WriteMemory`
-- rely on, and that the mock pdebug fills. The target is not code of this package.
pub mod Exchange
use qnx8_qconn_mcp.Prelude.{
  ℕ, zero, suc, ◌+◌, ◌%◌, ◌^◌, ◌<◌, ◌≤◌, ◌≡◌, ◌≢◌, refl, sym, ap, ◌∙◌, List, [], ◌∷◌, ◌++◌, Bytes,
  IsByte, AreBytes, All, ◌==◌, if◌then◌else◌, length, arith,
}
use qnx8_qconn_mcp.Qnxdbg.Protocol.{frame, chan_text}
use qnx8_qconn_mcp.Qnxdbg.Client.{header}
use qnx8_qconn_mcp.Qnxdbg.Client.Replies.{IsPassedFrame, frames_of}
use qnx8_qconn_mcp.Qnxdbg.Commands.{resp_err}
use qnx8_qconn_mcp.Qnxdbg.Memory.{cmd_memrd, cmd_memwr, max_chunk, memrd_body, memwr_body}

-- The `n` bytes of a memory from `addr` on; addresses are 64 bits wide.
unfoldable pub bytes_at : (ℕ → ℕ) → ℕ → ℕ → Bytes
bytes_at m addr zero = []
bytes_at m addr (suc n) = m (addr % 2 ^ 64) ∷ bytes_at m (addr + 1) n

abbrev pub update : (ℕ → ℕ) → ℕ → ℕ → ℕ → ℕ
update m a b x = if x == a then b else m x

-- The memory with `bytes` written from `addr` on.
unfoldable pub store : (ℕ → ℕ) → ℕ → Bytes → ℕ → ℕ
store m addr [] = m
store m addr (b ∷ bytes) = store (update m (addr % 2 ^ 64) b) (addr + 1) bytes

-- The target takes the frame `req` and answers, in any number of passed frames and one reply that
-- is no error, with `body`; it is then in the state `next`.
pub record Served {P : Type 0} (react : P → Bytes → P × Bytes) (s : P) (req body : Bytes)
    : Type 0 where
  pub next : P
  pub before : List Bytes
  pub code : ℕ
  pub sub : ℕ
  pub mid : ℕ
  pub channel_id : ℕ
  pub reacts :
      react s req ≡ (next, frames_of before ++ frame (code ∷ sub ∷ mid ∷ channel_id ∷ body))
  pub passed : All IsPassedFrame before
  pub bytes : AreBytes (code ∷ sub ∷ mid ∷ channel_id ∷ body)
  pub no_error : code ≢ resp_err
  pub no_text : channel_id ≢ chan_text

pub record MemTarget {P : Type 0} (react : P → Bytes → P × Bytes) : Type 1 where
  pub IsReady : P → Type 0
  pub mem : P → ℕ → ℕ
  -- a read changes no memory
  pub reads :
      (s : P) (mid addr size : ℕ)
      → IsReady s
      → mid < 256
      → addr < 2 ^ 64
      → 0 < size
      → size ≤ max_chunk
      → (served : Served react s
          (frame (header mid cmd_memrd 0 (memrd_body addr size)))
          (bytes_at (mem s) addr size))
        × IsReady served.next
        × (mem served.next ≡ mem s)

-- A target that keeps what is written.
pub record RamTarget {P : Type 0} (react : P → Bytes → P × Bytes) : Type 1 where
  pub target : MemTarget react
  pub open target use *
  pub writes :
      (s : P) (mid addr : ℕ) (bytes : Bytes)
      → IsReady s
      → mid < 256
      → addr < 2 ^ 64
      → AreBytes bytes
      → length bytes ≤ max_chunk
      → (body : Bytes) × (served : Served react s
          (frame (header mid cmd_memwr 0 (memwr_body addr bytes)))
          body)
        × IsReady served.next
        × (mem served.next ≡ store (mem s) addr bytes)

pub bytes_at-add :
    (m : ℕ → ℕ) (addr a b : ℕ)
    → bytes_at m addr (a + b) ≡ bytes_at m addr a ++ bytes_at m (addr + a) b
unfolding bytes_at
bytes_at-add m addr zero b =
    let e : 0 + b ≡ b = omega arith in let f : addr + 0 ≡ addr = omega arith in rw (e, f)
bytes_at-add m addr (suc a) b =
    let e : suc a + b ≡ suc (a + b) = omega arith in
    let f : addr + suc a ≡ addr + 1 + a = omega arith in
    rw (e, f) (ap (◌∷◌ (m (addr % 2 ^ 64))) (bytes_at-add m (addr + 1) a b))

bytes_at-cong : (m : ℕ → ℕ) (a b n : ℕ) → a % 2 ^ 64 ≡ b % 2 ^ 64 → bytes_at m a n ≡ bytes_at m b n
unfolding bytes_at
bytes_at-cong m a b zero h = refl
bytes_at-cong m a b (suc n) h =
    rw h (ap (◌∷◌ (m (b % 2 ^ 64))) (bytes_at-cong m (a + 1) (b + 1) n (omega arith)))

-- An address counts modulo 2^64.
pub bytes_at-mod : (m : ℕ → ℕ) (addr n : ℕ) → bytes_at m (addr % 2 ^ 64) n ≡ bytes_at m addr n
bytes_at-mod m addr n = bytes_at-cong m (addr % 2 ^ 64) addr n (omega arith)

pub length-bytes_at : (m : ℕ → ℕ) (addr n : ℕ) → length (bytes_at m addr n) ≡ n
unfolding bytes_at
length-bytes_at m addr zero = refl
length-bytes_at m addr (suc n) = ap suc (length-bytes_at m (addr + 1) n)

store-cong :
    (m : ℕ → ℕ) (a b : ℕ) (bytes : Bytes)
    → a % 2 ^ 64 ≡ b % 2 ^ 64
    → store m a bytes ≡ store m b bytes
unfolding store
store-cong m a b [] h = refl
store-cong m a b (x ∷ bytes) h =
    rw h (store-cong (update m (b % 2 ^ 64) x) (a + 1) (b + 1) bytes (omega arith))

pub store-mod :
    (m : ℕ → ℕ) (addr : ℕ) (bytes : Bytes) → store m (addr % 2 ^ 64) bytes ≡ store m addr bytes
store-mod m addr bytes = store-cong m (addr % 2 ^ 64) addr bytes (omega arith)

pub store-append :
    (m : ℕ → ℕ) (addr : ℕ) (xs ys : Bytes)
    → store m addr (xs ++ ys) ≡ store (store m addr xs) (addr + length xs) ys
unfolding store
store-append m addr [] ys = let f : addr + 0 ≡ addr = omega arith in rw f
store-append m addr (x ∷ xs) ys =
    let f : addr + suc (length xs) ≡ addr + 1 + length xs = omega arith in
    rw f (store-append (update m (addr % 2 ^ 64) x) (addr + 1) xs ys)

-- A write that starts `k` bytes above `a` and does not wrap round to it leaves the byte at `a`.
store-below :
    (m : ℕ → ℕ) (a k : ℕ) (bytes : Bytes)
    → 0 < k
    → k + length bytes ≤ 2 ^ 64
    → store m (a + k) bytes (a % 2 ^ 64) ≡ m (a % 2 ^ 64)
unfolding store
store-below m a k [] h f = refl
store-below m a k (b ∷ bytes) h f =
    let m' = update m ((a + k) % 2 ^ 64) b in
    let e : a + k + 1 ≡ a + (k + 1) = omega arith in
    let ne : a % 2 ^ 64 ≢ (a + k) % 2 ^ 64 = omega arith in
    rw e (store-below m' a (k + 1) bytes (omega arith) (omega arith) ∙ ground (arith, ne))

-- What was written is read back, if it does not run over itself.
pub bytes_at-store :
    (m : ℕ → ℕ) (addr : ℕ) (bytes : Bytes)
    → length bytes ≤ 2 ^ 64
    → bytes_at (store m addr bytes) addr (length bytes) ≡ bytes
unfolding bytes_at store
bytes_at-store m addr [] h = refl
bytes_at-store m addr (b ∷ bytes) h =
    let m' = update m (addr % 2 ^ 64) b in
    let first : store m' (addr + 1) bytes (addr % 2 ^ 64) ≡ b =
      store-below m' addr 1 bytes (omega arith) (omega arith) ∙ ground arith in
    rw first (ap (◌∷◌ b) (bytes_at-store m' (addr + 1) bytes (omega arith)))
