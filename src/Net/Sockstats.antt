-- ===== src/Net/Sockstats.antt =====
-- miscUtils/sockstats.c, as it is built for RTEMS: `rtems_bsdnet_show_socket_stats` over the table of file
-- descriptors, with the locks that each is read under. `level` is not negative.
pub mod Locking
use rtems_ssrl_apps.Prelude.{
  ℕ, zero, suc, ◌+◌, ◌-◌, ◌*◌, ◌%◌, ◌^◌, Bool, true, false, not, ◌&&◌, ◌||◌, Option, none, some,
  List, [], ◌∷◌, ◌++◌, ◌==◌, ltb, leb, if◌then◌else◌,
}
use rtems_ssrl_apps.Prelude.Int.{ℤ, pos, negsuc, minus_one, is_neg}
use rtems_ssrl_apps.Net.Sockbuf.{Pool, Sockbuf, Sbstats, getsbstats}

-- `so_type`, `so_options`, `pr_protocol`, `so_qlen`, `so_incqlen`, `so_qlimit` and `so_timeo` of a socket.
pub record Head : Type 0 where
  pub so_type : ℕ
  pub so_options : ℕ
  pub pr_protocol : ℕ
  pub so_qlen : ℕ
  pub so_incqlen : ℕ
  pub so_qlimit : ℕ
  pub so_timeo : ℕ

pub record Socket : Type 0 where
  pub head : Head
  pub so_rcv : Sockbuf
  pub so_snd : Sockbuf

pub record Sostats : Type 0 where
  pub head : Head
  pub so_rcv : Sbstats
  pub so_snd : Sbstats

-- A file descriptor: its flag LIBIO_FLAGS_OPEN and its handlers (0 is NULL), whether `getsockname` and
-- `getpeername` succeed, whether its domain is INET, and its socket, unless `data1` is NULL.
pub record Descriptor : Type 0 where
  pub opened : Bool
  pub handlers : ℕ
  pub sockname : Bool
  pub inet : Bool
  pub peername : Bool
  pub data1 : Option Socket

-- `init_sockhdlrs`: the static `sockhandlers`, and the dummy sockets made and closed. `dummyfd` is what
-- `socket` returns, `handlers` what such a descriptor has.
unfoldable pub init_sockhdlrs : (sockhandlers : ℕ) → (dummyfd : ℤ) → (handlers : ℕ) → ℕ × ℕ × ℕ
init_sockhdlrs h dummyfd handlers =
    if not (h == 0) then (h, 0, 0) else if is_neg dummyfd then (h, 0, 0) else (handlers, 1, 1)

unfoldable pub notsock : (sockhandlers : ℕ) → Descriptor → Bool
notsock h d = not d.opened || not (d.handlers == h)

-- What `rtems_bsdnet_show_socket_stats` does: the locks it takes and gives back, the test of `notsock`,
-- the calls on a socket, the reading of its data, and what it prints of a descriptor.
pub data Event : Type 0 where
  obtain_net : Event
  obtain_libio : Event
  release_libio : Event
  release_net : Event
  test_handlers : ℕ → Event
  get_sockname : ℕ → Event
  get_peername : ℕ → Event
  gather : ℕ → Event
  not_inet : ℕ → Event
  addresses : ℕ → (peer : Bool) → Event
  no_data : ℕ → Event
  details : ℕ → Sostats → Event
  blank : Event

abbrev lock : List Event
lock = obtain_net ∷ obtain_libio ∷ []

abbrev pub unlock : List Event
unlock = release_libio ∷ release_net ∷ []

-- The variables that a turn of the loop leaves to the next one: `so`, by whether it is not NULL, and
-- `sostats`.
pub record Cache : Type 0 where
  pub so : Bool
  pub sostats : Sostats

-- `if (level && (iop = rtems_libio_iop(i)))`, where each descriptor in range has an iop.
unfoldable pub gather_stats : Pool → (level : ℕ) → Descriptor → Cache → Cache
gather_stats p level d c = if level == 0 then c else elim d.data1 [
  | none ↦ record c { so = false }
  | some s ↦ record {
    so = true;
    sostats = record {
      head = s.head;
      so_rcv = getsbstats p s.so_rcv;
      so_snd = getsbstats p s.so_snd;
    };
  }
]

-- `if (level)`, the further lines.
abbrev more_lines : (level i : ℕ) → Cache → List Event
more_lines level i c =
    if level == 0 then [] else if not c.so then no_data i ∷ [] else details i c.sostats ∷ []

-- A turn of the loop: its events, the variables that it leaves, and the sockets that it counts.
unfoldable pub show_one :
    Pool → (sockhandlers level i : ℕ) → Descriptor → Cache → List Event × Cache × ℕ
show_one p h level i d c =
    let c' = gather_stats p level d c in
    if notsock h d
    then (lock ++ test_handlers i ∷ unlock, c, 0)
    else if not d.sockname
    then (lock ++ test_handlers i ∷ get_sockname i ∷ unlock, c, 0)
    else if not d.inet
    then (lock ++ test_handlers i ∷ get_sockname i ∷ (unlock ++ not_inet i ∷ blank ∷ []), c, 0)
    else (
      lock
          ++ test_handlers i
            ∷ get_sockname i
            ∷ get_peername i
            ∷ ((if level == 0 then [] else gather i ∷ [])
                ++ (unlock ++ addresses i d.peername ∷ (more_lines level i c' ++ blank ∷ []))),
      c',
      1,
    )

-- The loop, `k` descriptors from `i` on.
module _ (p : Pool) (h level : ℕ) (descriptor : ℕ → Descriptor) where
  unfoldable pub show_loop : (k i : ℕ) → Cache → List Event × ℕ
  show_loop zero i c = ([], 0)
  show_loop (suc k) i c =
      let (es, c', n) = show_one p h level i (descriptor i) c in
      let (fs, m) = show_loop k (i + 1) c' in (es ++ fs, n + m)

-- The first descriptor and how many; there are `iops` of them. A number below 0 asks for all, as 0 does.
unfoldable pub range : (iops : ℕ) → (sd : ℤ) → Option (ℕ × ℕ)
range iops (negsuc _) = some (0, iops)
range iops (pos sd) = if sd == 0 then some (0, iops) else if leb iops sd then none else some (sd, 1)

-- Behind `init_sockhdlrs`: the value returned and the events.
unfoldable pub show_socket_stats :
    Pool
    → (sockhandlers iops : ℕ) → (descriptor : ℕ → Descriptor) → (level : ℕ) → (sd : ℤ) → Cache
    → ℤ × List Event
unfolding range show_loop
show_socket_stats p h iops descriptor level sd c = elim (range iops sd) [
  | none ↦ (minus_one, [])
  | some (i, k) ↦ let (es, n) = show_loop p h level descriptor k i c in (pos n, es)
]
