-- ===== src/Telnetd.antt =====
-- The telnet daemon of telnetd/, its password check and its pseudo-terminal driver.
pub mod Connection
pub mod Daemon
pub mod Genpw
pub mod Passwd
pub mod Pty
