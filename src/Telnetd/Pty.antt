-- ===== src/Telnetd/Pty.antt =====
-- telnetd/pty.c: the pseudo-terminal driver behind the telnet daemon.
pub mod Slot
pub mod Driver
pub mod Read
pub mod Entries
