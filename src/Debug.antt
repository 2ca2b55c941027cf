-- ===== src/Debug.antt =====
-- internal/debug: the GDB remote protocol.
pub mod Codec
pub mod Rsp
pub mod Session
