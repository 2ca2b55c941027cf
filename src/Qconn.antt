-- ===== src/Qconn.antt =====
-- Package internal/qconn: the client of the qconn daemon.
pub mod Telnet
pub mod Noise
pub mod Launcher
pub mod Proc
pub mod Prompt
pub mod Pattern
pub mod Frame
pub mod Client
pub mod Exec
pub mod Queries
pub mod File
pub mod Transfer
pub mod Cntl
pub mod Sysinfo
pub mod Segments
