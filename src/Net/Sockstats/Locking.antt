-- ===== src/Net/Sockstats/Locking.antt =====
-- `rtems_bsdnet_show_socket_stats` of miscUtils/sockstats.c: its locks, and what it tells of each descriptor.
use rtems_ssrl_apps.Prelude.{
  ℕ, zero, suc, ◌+◌, ◌≡◌, refl, ◌∙◌, ap, Bool, true, false, not, ◌&&◌, ◌||◌, Option, none, some,
  List, [], ◌∷◌, ◌++◌, ◌==◌, if◌then◌else◌, arith, Bool-cases, Option-cases, inl, inr,
}
use rtems_ssrl_apps.Prelude.Int.{ℤ, pos}
use rtems_ssrl_apps.Net.Sockbuf.{Pool, getsbstats}
use rtems_ssrl_apps.Net.Sockstats.{
  Event, obtain_net, obtain_libio, release_libio, release_net, test_handlers, get_sockname,
  get_peername, gather, not_inet, addresses, no_data, details, blank, Socket, Sostats, Descriptor,
  Cache, notsock, gather_stats, show_one, show_loop, range, show_socket_stats,
}

-- Which of the two locks are held: none, that of the network, or both.
pub data Held : Type 0 where
  free : Held
  net : Held
  both : Held

-- An event with the locks that must be held: the sockets are read under both, and printing is done under
-- none.
abbrev step : Held → Event → Option Held
step free obtain_net = some net
step net obtain_libio = some both
step both release_libio = some net
step net release_net = some free
step both (test_handlers i) = some both
step both (get_sockname i) = some both
step both (get_peername i) = some both
step both (gather i) = some both
step free (not_inet i) = some free
step free (addresses i b) = some free
step free (no_data i) = some free
step free (details i s) = some free
step free blank = some free
step _ _ = none

abbrev pub locks : Held → List Event → Option Held
locks h [] = some h
locks h (e ∷ es) = elim (step h e) [ none ↦ none | some h' ↦ locks h' es ]

abbrev is_printed : Event → Bool
is_printed obtain_net = false
is_printed obtain_libio = false
is_printed release_libio = false
is_printed release_net = false
is_printed (test_handlers _) = false
is_printed (get_sockname _) = false
is_printed (get_peername _) = false
is_printed (gather _) = false
is_printed _ = true

abbrev pub printed : List Event → List Event
printed [] = []
printed (e ∷ es) = if is_printed e then e ∷ printed es else printed es

-- What is asked of descriptors, in order: an access, and the descriptor.
pub data Access : Type 0 where
  is_sock : ℕ → Access
  sockname_of : ℕ → Access
  peername_of : ℕ → Access
  data_of : ℕ → Access

abbrev pub accesses : List Event → List Access
accesses [] = []
accesses (test_handlers i ∷ es) = is_sock i ∷ accesses es
accesses (get_sockname i ∷ es) = sockname_of i ∷ accesses es
accesses (get_peername i ∷ es) = peername_of i ∷ accesses es
accesses (gather i ∷ es) = data_of i ∷ accesses es
accesses (_ ∷ es) = accesses es

module _ (p : Pool) (h level : ℕ) where
  -- What is to be printed of a socket, of a descriptor, and of a range of descriptors.
  abbrev socket_lines : ℕ → Option Socket → List Event
  socket_lines i none = no_data i ∷ []
  socket_lines i (some s) =
      let stats : Sostats = record {
        head = s.head;
        so_rcv = getsbstats p s.so_rcv;
        so_snd = getsbstats p s.so_snd;
      } in
      details i stats ∷ []

  -- An open descriptor with the handlers of sockets, and one that has an address.
  abbrev is_open_socket : Descriptor → Bool
  is_open_socket d = d.opened && (d.handlers == h)

  abbrev is_socket : Descriptor → Bool
  is_socket d = is_open_socket d && d.sockname

  abbrev pub lines_of : ℕ → Descriptor → List Event
  lines_of i d =
      if is_socket d
      then (if d.inet
          then addresses i d.peername
            ∷ ((if level == 0 then [] else socket_lines i d.data1) ++ blank ∷ [])
          else not_inet i ∷ blank ∷ [])
      else []

  abbrev pub all_lines : (ℕ → Descriptor) → (k i : ℕ) → List Event
  all_lines desc zero i = []
  all_lines desc (suc k) i = lines_of i (desc i) ++ all_lines desc k (i + 1)

  -- What is to be asked of a descriptor, and of a range of them.
  abbrev pub asked_of : ℕ → Descriptor → List Access
  asked_of i d =
      is_sock i
      ∷ (if is_open_socket d
          then sockname_of i
            ∷ (if d.sockname && d.inet
                then peername_of i ∷ (if level == 0 then [] else data_of i ∷ [])
                else [])
          else [])

  abbrev pub all_asked : (ℕ → Descriptor) → (k i : ℕ) → List Access
  all_asked desc zero i = []
  all_asked desc (suc k) i = asked_of i (desc i) ++ all_asked desc k (i + 1)

  abbrev pub inet_sockets : (ℕ → Descriptor) → (k i : ℕ) → ℕ
  inet_sockets desc zero i = 0
  inet_sockets desc (suc k) i =
      (if is_socket (desc i) && (desc i).inet then 1 else 0) + inet_sockets desc k (i + 1)

  -- A turn of the loop, before the events `fs` of those behind it.
  show_one-lines :
      (i : ℕ) (d : Descriptor) (c : Cache) (fs : List Event)
      → let (es, c', n) = show_one p h level i d c in
        (locks free (es ++ fs) ≡ locks free fs)
        × (accesses (es ++ fs) ≡ asked_of i d ++ accesses fs)
        × (printed (es ++ fs) ≡ lines_of i d ++ printed fs)
        × (n ≡ (if is_socket d && d.inet then 1 else 0))
  unfolding show_one gather_stats notsock
  show_one-lines i d c fs = elim (Bool-cases (d.opened && (d.handlers == h))) [
    | inr a ↦
        let n : (not d.opened || not (d.handlers == h)) ≡ true = ground arith in
        rw (n, a, show_one) (refl, refl, refl, refl)
    | inl a ↦
        let n : (not d.opened || not (d.handlers == h)) ≡ false = ground arith in
        elim (Bool-cases d.sockname) [
          | inr b ↦ rw (n, a, b, show_one) (refl, refl, refl, refl)
          | inl b ↦ elim (Bool-cases d.inet) [
            | inr e ↦ rw (n, a, b, e, show_one) (refl, refl, refl, refl)
            | inl e ↦ elim (Bool-cases (level == 0)) [
              | inl z ↦ rw (n, a, b, e, z, show_one, gather_stats) (refl, refl, refl, refl)
              | inr z ↦ elim (Option-cases d.data1) [
                | inl o ↦ rw (n, a, b, e, z, o, show_one, gather_stats) (refl, refl, refl, refl)
                | inr (s, o) ↦
                    rw (n, a, b, e, z, o, show_one, gather_stats) (refl, refl, refl, refl)
              ]
            ]
          ]
        ]
  ]

  -- The loop takes both locks and gives both back at each descriptor, and what it prints and counts of one
  -- is not of another.
  show_loop-lines :
      (desc : ℕ → Descriptor) (k i : ℕ) (c : Cache)
      → let (es, n) = show_loop p h level desc k i c in
        (locks free es ≡ some free)
        × (accesses es ≡ all_asked desc k i)
        × (printed es ≡ all_lines desc k i)
        × (n ≡ inet_sockets desc k i)
  unfolding show_loop
  show_loop-lines desc zero i c = (refl, refl, refl, refl)
  show_loop-lines desc (suc k) i c =
      let one = show_one p h level i (desc i) c in
      let (b, q, t, m) = show_loop-lines desc k (i + 1) one.1 in
      let (b1, q1, t1, m1) =
        show_one-lines i (desc i) c (show_loop p h level desc k (i + 1) one.1).0 in
      (
        b1 ∙ b,
        q1 ∙ ap (asked_of i (desc i) ++◌) q,
        t1 ∙ ap (lines_of i (desc i) ++◌) t,
        ground (arith, m, m1),
      )

  -- For a descriptor below the size of the table, or for all of them, the function takes the lock of the
  -- network before that of the files, gives them back in reverse and ends without one; it tests each
  -- descriptor, asks a socket's address, and of an INET socket the peer's and, if the level is not 0, the
  -- data, all under both locks, and prints under none; it prints of each descriptor what that one has,
  -- and returns the number of INET sockets.
  pub show_socket_stats-locks :
      (iops : ℕ) (desc : ℕ → Descriptor) (sd : ℤ) (c : Cache) {i k : ℕ}
      → range iops sd ≡ some (i, k)
      → let (code, es) = show_socket_stats p h iops desc level sd c in
        (locks free es ≡ some free)
        × (accesses es ≡ all_asked desc k i)
        × (printed es ≡ all_lines desc k i)
        × (code ≡ pos (inet_sockets desc k i))
  unfolding show_socket_stats
  show_socket_stats-locks iops desc sd c {i} {k} e =
      let (b, q, t, n) = show_loop-lines desc k i c in rw (e, show_socket_stats) (b, q, t, ap pos n)
