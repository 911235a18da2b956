-- ===== src/Tests/Sockstats.antt =====
-- Runs of the statistics of the sockets.
use rtems_ssrl_apps.Prelude.{ℕ, ◌∷◌, [], ◌≡◌, refl, true, false, none, some, ◌==◌, if◌then◌else◌}
use rtems_ssrl_apps.Prelude.Int.{pos, negsuc}
use rtems_ssrl_apps.MemUtils.{u32}
use rtems_ssrl_apps.Net.Sockbuf.{Pool, Limits, Sockbuf, getsbstats, holdsclust}
use rtems_ssrl_apps.Net.Sockbuf.Tally.{total, others}
use rtems_ssrl_apps.Net.Sockstats.{Head, Descriptor, Cache, range, show_socket_stats}
use rtems_ssrl_apps.Net.Sockstats.Locking.{
  free, locks, accesses, all_asked, printed, all_lines, inet_sockets, show_socket_stats-locks,
}

-- Four clusters, each with three references.
abbrev pool : Pool
pool = record { mbutl = 0x1000; clusters = 5; mclbytes = 2048; refcnt = λ a. 3 }

abbrev limits : Limits
limits = record {
  sb_cc = 10;
  sb_hiwat = 100;
  sb_mbcnt = 7;
  sb_mbmax = 200;
  sb_lowat = 1;
  sb_flags = 0;
  sb_timeo = 0;
}

-- A record of a cluster and a small mbuf, and one of a cluster.
abbrev buffer : Sockbuf
buffer = record {
  limits = limits;
  records =
      (record { ext = true; data_at = 0x1000 } ∷ record { ext = false; data_at = 0x9000 } ∷ [])
      ∷ (record { ext = true; data_at = 0x1800 } ∷ [])
      ∷ [];
}

others_four : u32 (total (others pool) buffer.records) ≡ 4
unfolding holdsclust
others_four = refl

abbrev head : Head
head = record {
  so_type = 1;
  so_options = 0;
  pr_protocol = 6;
  so_qlen = 0;
  so_incqlen = 0;
  so_qlimit = 5;
  so_timeo = 0;
}

abbrev open_file : Descriptor
open_file = record {
  opened = true;
  handlers = 0x500;
  sockname = true;
  inet = true;
  peername = false;
  data1 = some (record { head = head; so_rcv = buffer; so_snd = buffer });
}

-- The descriptor 3 is an INET socket; the others are closed.
abbrev files : ℕ → Descriptor
files i = if i == 3 then open_file else record open_file { opened = false; data1 = none }

abbrev cache : Cache
cache =
    let s = getsbstats pool buffer in
    record { so = false; sostats = record { head = head; so_rcv = s; so_snd = s } }

show_socket_stats-locks_example :
    let (code, es) = show_socket_stats pool 0x500 6 files 1 (negsuc 0) cache in
    (locks free es ≡ some free)
    × (accesses es ≡ all_asked pool 0x500 1 files 6 0)
    × (printed es ≡ all_lines pool 0x500 1 files 6 0)
    × (code ≡ pos (inet_sockets pool 0x500 1 files 6 0))
unfolding range
show_socket_stats-locks_example =
    show_socket_stats-locks pool 0x500 1 6 files (negsuc 0) cache {i = 0} {k = 6} refl

one_socket : inet_sockets pool 0x500 1 files 6 0 ≡ 1
one_socket = refl
