-- ===== src/Tests/Net.antt =====
-- Runs of the checksums and of traceroute.
use rtems_ssrl_apps.Prelude.{ℕ, ◌+◌, ◌*◌, ◌≡◌, refl, true, false, none, List, [], ◌∷◌, ◌++◌, arith}
use rtems_ssrl_apps.Prelude.Int.{pos}
use rtems_ssrl_apps.Net.Checksum.{ip_cksum, rtems_ping_cksum}
use rtems_ssrl_apps.Net.Checksum.Sums.{ip_cksum-verifies, rtems_ping_cksum-ip_cksum}
use rtems_ssrl_apps.Net.Traceroute.{timed_out, Attempt, waited, trace, Setup, tr_open}
use rtems_ssrl_apps.Net.Traceroute.Frame.{tr_make_ip_frame, tr_make_icmp, ip_words, frame-verifies}
use rtems_ssrl_apps.Net.Traceroute.Hops.{EndsBounded, trace-Bounded}

-- The header of a packet from 192.168.0.1 to 192.168.0.199, before and behind its checksum.
abbrev before : List ℕ
before = 0x4500 ∷ 0x0073 ∷ 0x0000 ∷ 0x4000 ∷ 0x4011 ∷ []

abbrev after : List ℕ
after = 0xc0a8 ∷ 0x0001 ∷ 0xc0a8 ∷ 0x00c7 ∷ []

known_cksum : ip_cksum true (before ++ 0 ∷ after) none ≡ 0xb861
unfolding ip_cksum
known_cksum = refl

ip_cksum-verifies_example :
    ip_cksum true (before ++ ip_cksum true (before ++ 0 ∷ after) none ∷ after) none ≡ 0
ip_cksum-verifies_example = ip_cksum-verifies true before after (ground arith) (ground arith)

rtems_ping_cksum-ip_cksum_example : rtems_ping_cksum before none ≡ ip_cksum false before none
rtems_ping_cksum-ip_cksum_example =
    rtems_ping_cksum-ip_cksum false before (omega arith) (ground arith)

frame-verifies_example :
    let (h, len) = tr_make_ip_frame 0x0a000001 0 5930 1 (8 + 2 * 10) in
    (ip_cksum true (ip_words h) none ≡ 0)
    × (ip_cksum true (tr_make_icmp 5930 10) none ≡ 0)
    × (len ≡ 28 + 2 * 10)
frame-verifies_example =
    frame-verifies 0x0a000001 0 5930 1 10 (omega arith) (omega arith) (omega arith) (omega arith)
      (omega arith)

-- A gateway at 5 that answers each probe.
abbrev gateway : ℕ → Attempt
gateway _ =
    waited (record { size = 56; icmp_type = 11; icmp_code = 0; icmp_id = 5930; from = 5 } ∷ [])
      timed_out

abbrev open_socket : Setup
open_socket = record {
  fd = pos 4;
  rcvtimeo = pos 0;
  sndtimeo = pos 0;
  hdrincl = pos 0;
  getsockname = pos 0;
}

is_open : tr_open open_socket ≡ (true, 0)
unfolding tr_open
is_open = refl

trace-Bounded_example : EndsBounded 3 0 1 (trace 9 5930 gateway 3 0 1)
trace-Bounded_example = trace-Bounded 9 5930 gateway (λ n. tt) 3 0 1
