-- ===== src/Mockqnx.antt =====
-- Package internal/mockqnx: the test doubles.
pub mod Dsmsg
pub mod Rsp
pub mod Shell
pub mod Qconn
