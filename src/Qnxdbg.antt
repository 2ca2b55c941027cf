-- ===== src/Qnxdbg.antt =====
-- Package internal/qnxdbg: the DSMSG client for pdebug.
pub mod Protocol
pub mod Client
pub mod Commands
pub mod Run
pub mod Info
pub mod Memory
pub mod Launch
pub mod Target
pub mod Scanner
pub mod Decode
