-- ===== src/Net.antt =====
-- The network tools of miscUtils/: ping, traceroute and their checksums, interfaces, routes and sockets.
pub mod Checksum
pub mod Ifconf
pub mod Ping
pub mod Sockbuf
pub mod Sockstats
pub mod Traceroute
