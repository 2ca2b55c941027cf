-- ===== src/Tests.antt =====
-- Witnesses: each theorem applied at a concrete input. The modules below hold them by package.
mod Clients
mod Dbg
mod Ram
mod Stub
mod Qconn
mod Files
mod Daemon
mod Sessions
