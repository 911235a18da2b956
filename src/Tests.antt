-- ===== src/Tests.antt =====
-- Concrete runs, and each theorem with hypotheses at an input that meets them.
mod Commands
mod Connection
mod Console
mod Daemon
mod Ifconf
mod PtyRead
mod Ping
mod PtyDriver
mod MemUtils
mod Memory
mod Monitor
mod Net
mod Passwd
mod Sockstats
mod Spawn
mod VecAlloc
pub mod Samples
mod VecContext
mod Uptime
