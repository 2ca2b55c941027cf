-- ===== src/Qnxdbg/Client/Codec.antt =====
-- The little-endian encoders and the readers of `encoding/binary`.
use qnx8_qconn_mcp.Prelude.{ℕ, ◌^◌, ◌<◌, ◌≡◌, ◌++◌, Bytes, AreBytes, u16, u32, u64, arith}
use qnx8_qconn_mcp.Qnxdbg.Client.{le16, le32, le64}

pub u16-le16 : (v : ℕ) (r : Bytes) → v < 2 ^ 16 → u16 (le16 v ++ r) ≡ v
u16-le16 v r h = omega arith

pub u32-le32 : (v : ℕ) (r : Bytes) → v < 2 ^ 32 → u32 (le32 v ++ r) ≡ v
u32-le32 v r h = omega arith

pub u64-le64 : (v : ℕ) (r : Bytes) → v < 2 ^ 64 → u64 (le64 v ++ r) ≡ v
u64-le64 v r h = omega arith

pub le16-AreBytes : (v : ℕ) → AreBytes (le16 v)
le16-AreBytes v = omega arith

pub le32-AreBytes : (v : ℕ) → AreBytes (le32 v)
le32-AreBytes v = omega arith

pub le64-AreBytes : (v : ℕ) → AreBytes (le64 v)
le64-AreBytes v = omega arith
