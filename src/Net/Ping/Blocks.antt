-- ===== src/Net/Ping/Blocks.antt =====
-- The memory and the socket of a ping of miscUtils/icmpping.c.
use rtems_ssrl_apps.Prelude.{ℕ, ◌+◌, ◌≡◌, arith, if◌then◌else◌, is_some}
use rtems_ssrl_apps.Net.Ping.{Setup, count, above_2, rtems_ping_open, rtems_ping_close}

-- A ping that opens has a payload of 56 bytes at least and frees what it allocated when it is closed,
-- with its socket, if that is above 2; one that does not open leaves no block, and no socket to close.
pub rtems_ping_open-frees :
    (s : Setup) (payload_size : ℕ)
    → let o = rtems_ping_open s payload_size in
      let (freed, closes) = rtems_ping_close o.ping in
      (o.allocated ≡ o.freed + freed)
      × (o.closes + closes ≡ (if is_some o.ping then count (above_2 s.socket) else 0))
unfolding rtems_ping_open rtems_ping_close
rtems_ping_open-frees s payload_size = ground arith
