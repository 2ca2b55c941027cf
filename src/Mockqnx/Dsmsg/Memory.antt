-- ===== src/Mockqnx/Dsmsg/Memory.antt =====
-- The mock pdebug keeps the promise that `ReadMemory` relies on.
use qnx8_qconn_mcp.Prelude.{
  ℕ, zero, suc, ◌+◌, ◌%◌, ◌^◌, ◌<◌, ◌≡◌, refl, ap, ◌∙◌, [], ◌∷◌, ◌++◌, AreBytes, replicate, arith,
}
use qnx8_qconn_mcp.Qnxdbg.Protocol.{frame}
use qnx8_qconn_mcp.Qnxdbg.Client.{header, le16}
use qnx8_qconn_mcp.Qnxdbg.Client.Codec.{u16-le16, u64-le64}
use qnx8_qconn_mcp.Qnxdbg.Memory.{cmd_memrd, memrd_body}
use qnx8_qconn_mcp.Qnxdbg.Target.{bytes_at, MemTarget}
use qnx8_qconn_mcp.Mockqnx.Dsmsg.{Server, synthetic, memrd, answer, dispatch, handle, react}
use qnx8_qconn_mcp.Mockqnx.Dsmsg.Interop.{written-frame, react-frame}

synthetic-bytes_at : (addr n : ℕ) → synthetic addr n ≡ bytes_at (λ a. a % 256) addr n
unfolding synthetic bytes_at
synthetic-bytes_at addr zero = refl
synthetic-bytes_at addr (suc n) =
    let e : addr % 256 ≡ addr % 2 ^ 64 % 256 = omega arith in
    rw e (ap (◌∷◌ (addr % 2 ^ 64 % 256)) (synthetic-bytes_at (addr + 1) n))

pub bytes_at-AreBytes : (addr n : ℕ) → AreBytes (bytes_at (λ a. a % 256) addr n)
unfolding bytes_at
bytes_at-AreBytes addr zero = tt
bytes_at-AreBytes addr (suc n) = (omega arith, bytes_at-AreBytes (addr + 1) n)

-- What the mock makes of a read request.
handle_memrd :
    (s : Server) (mid addr size : ℕ)
    → addr < 2 ^ 64
    → size < 2 ^ 16
    → handle (header mid cmd_memrd 0 (memrd_body addr size)) s
      ≡ (s, frame (0x23 ∷ 0x00 ∷ mid ∷ 0x01 ∷ bytes_at (λ a. a % 256) addr size))
unfolding handle dispatch answer memrd
handle_memrd s mid addr size h k = rw (
  u64-le64 addr (le16 size ++ replicate 6 0) h,
  u16-le16 size (replicate 6 0) k,
  synthetic-bytes_at addr size,
  written-frame (0x23 ∷ 0x00 ∷ mid ∷ 0x01 ∷ bytes_at (λ a. a % 256) addr size),
)

request-AreBytes :
    (mid addr size : ℕ) → mid < 256 → AreBytes (header mid cmd_memrd 0 (memrd_body addr size))
request-AreBytes mid addr size h = omega arith

pub react_memrd :
    (s : Server) (mid addr size : ℕ)
    → s.buffer ≡ []
    → mid < 256
    → addr < 2 ^ 64
    → size < 2 ^ 16
    → react s (frame (header mid cmd_memrd 0 (memrd_body addr size)))
      ≡ (s, frame (0x23 ∷ 0x00 ∷ mid ∷ 0x01 ∷ bytes_at (λ a. a % 256) addr size))
react_memrd s mid addr size idle h k l =
    let e = handle_memrd s mid addr size k l in
    react-frame s _ (request-AreBytes mid addr size h) idle (rw e idle) ∙ e

-- The mock as a target: the byte at an address is the address modulo 256.
abbrev pub mock_target : MemTarget react
mock_target = record {
  IsReady = λ s. s.buffer ≡ [];
  mem = λ s a. a % 256;
  reads = λ s mid addr size idle h k pos fits. (
    record {
      next = s;
      before = [];
      code = 0x23;
      sub = 0;
      mid = mid;
      channel_id = 0x01;
      reacts = react_memrd s mid addr size idle h k (omega arith);
      passed = tt;
      bytes = (omega arith, (omega arith, (h, (omega arith, bytes_at-AreBytes addr size))));
      no_error = omega arith;
      no_text = omega arith;
    },
    idle,
    refl,
  );
}
