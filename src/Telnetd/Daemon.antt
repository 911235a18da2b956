-- ===== src/Telnetd/Daemon.antt =====
-- telnetd/telnetd.c: the daemon that accepts connections, the task that runs a shell on one, and the
-- start of both. The messages on the console are left out.
pub mod Serve
pub mod Shell
pub mod Start
use rtems_ssrl_apps.Prelude.{
  ℕ, zero, suc, ◌+◌, ◌%◌, ◌^◌, Bool, true, false, not, ◌&&◌, ◌||◌, Option, none, some, List, [],
  ◌∷◌, ◌++◌, map, ◌==◌, ltb, if◌then◌else◌, codes, is_some,
}
use rtems_ssrl_apps.Prelude.Int.{ℤ, pos, negsuc, is_neg, minus_one, is_nonzero}
use rtems_ssrl_apps.Telnetd.Passwd
use rtems_ssrl_apps.Telnetd.Passwd.{World, check_passwd}
use rtems_ssrl_apps.Telnetd.Pty.Driver.{Driver, Call, telnet_get_pty}

-- What the daemon and its shells do, in order. `redirect` sets stdin, stdout and stderr to the streams
-- opened (`true`) or back (`false`).
pub data Event : Type 0 where
  driver : Call → Event
  log_no_pty : Event
  log_accepted : (peer devname : List ℕ) → Event
  log_released : (peer devname : List ℕ) → Event
  sleep : ℕ → Event
  malloc_args : Event
  free_args : Event
  spawn : (name : List ℕ) (started : Bool) → Event
  shell : (devname : List ℕ) → Event
  fopen : (devname : List ℕ) (opened : Bool) → Event
  fclose : ℕ → Event
  redirect : Bool → Event
  close : ℤ → Event
  passwd : Passwd.Event → Event
  delete_self : Event

-- What `getpeername` returns for a connection and the text that `inet_ntop` makes of the address.
pub record Peer : Type 0 where
  pub getpeername : ℤ
  pub inet_ntop : Option (List ℕ)

-- The name of the peer where the value returned is 0.
unfoldable pub sockpeername : ℤ → Peer → Option (List ℕ)
sockpeername sock p =
    if is_neg sock then none else if is_nonzero p.getpeername then none else p.inet_ntop

abbrev pub peer_name : ℤ → Peer → List ℕ
peer_name sock p = elim (sockpeername sock p) [ none ↦ codes "<UNKNOWN>" | some name ↦ name ]

-- What follows `telnet_get_pty` in `grab_a_Connection`.
announce :
    ℤ → Peer → Option (List ℕ) × Driver × List Call → Option (List ℕ × List ℕ) × Driver × List Event
announce acp_sock p (none, d, cs) = (none, d, map driver cs ++ log_no_pty ∷ [])
announce acp_sock p (some name, d, cs) =
    let peer = peer_name acp_sock p in
    (some (name, peer), d, map driver cs ++ log_accepted peer name ∷ [])

-- The device and the peer's name, the driver and the events. `acp_sock` is what `accept` returns.
unfoldable pub grab_a_connection :
    ℤ → Peer → Driver → Option (List ℕ × List ℕ) × Driver × List Event
unfolding announce
grab_a_connection acp_sock p d =
    if is_neg acp_sock then (none, d, []) else announce acp_sock p (telnet_get_pty acp_sock d)

-- `while (--n>=0) if (pstd[n]) fclose(pstd[n]);`
unfoldable pub close_streams : (ℕ → Bool) → ℕ → List Event
close_streams pstd zero = []
close_streams pstd (suc n) =
    let rest = close_streams pstd n in if pstd n then fclose n ∷ rest else rest

unfoldable pub release_a_connection : List ℕ → List ℕ → (ℕ → Bool) → ℕ → List Event
unfolding close_streams
release_a_connection devname peer pstd n = log_released peer devname ∷ close_streams pstd n

-- `&devname[5]`, behind "/dev/".
abbrev pub drop : ℕ → List ℕ → List ℕ
drop zero xs = xs
drop (suc n) [] = []
drop (suc n) (x ∷ xs) = drop n xs

-- The answers of the system in one round of the daemon: the calls on the connection, whether `malloc`
-- gives memory, whether the task is spawned, and whether the device opens as a dummy.
pub record Round : Type 0 where
  pub accept : ℤ
  pub peer : Peer
  pub passwd : World
  pub malloc : Bool
  pub spawned : Bool
  pub dummy : Bool

-- What is done for a child task that could not be spawned.
give_up : Bool → List ℕ → List ℕ → List Event
unfolding release_a_connection
give_up dummy name peer =
    fopen name dummy ∷ (release_a_connection name peer (λ _. dummy) 1 ++ free_args ∷ sleep 2 ∷ [])

module _ (crypt : List ℕ → List ℕ → List ℕ) where
  -- The shell behind the password check.
  unfoldable pub guarded_shell : World → List ℕ → List Event
  guarded_shell w name =
      let (rval, es) = check_passwd crypt w in
      map passwd es ++ (if is_nonzero rval then [] else shell name ∷ [])

  -- What the daemon does with a connection; `none` is the use of the NULL of `malloc`.
  unfoldable pub dispatch : Bool → Round → List ℕ → List ℕ → Option (List Event)
  unfolding give_up
  dispatch dont_spawn r name peer =
      if dont_spawn
      then some (guarded_shell r.passwd name)
      else if not r.malloc
      then none
      else if r.spawned
      then some (malloc_args ∷ spawn (drop 5 name) true ∷ [])
      else some (malloc_args ∷ spawn (drop 5 name) false ∷ give_up r.dummy name peer)

  -- The body of the daemon's loop behind `grab_a_Connection`.
  serve_grabbed :
      Bool → Round → Option (List ℕ × List ℕ) × Driver × List Event → Option (Driver × List Event)
  serve_grabbed dont_spawn r (none, e, es) = some (e, es ++ sleep 10 ∷ [])
  serve_grabbed dont_spawn r (some (name, peer), e, es) = elim (dispatch dont_spawn r name peer) [
    | none ↦ none
    | some fs ↦ some (e, es ++ fs)
  ]

  -- A round of the daemon's loop: the driver afterwards and the events.
  unfoldable pub serve : Bool → Round → Driver → Option (Driver × List Event)
  unfolding serve_grabbed
  serve dont_spawn r d = serve_grabbed dont_spawn r (grab_a_connection r.accept r.peer d)

  -- The opening of the streams from the `i`-th on, `k` of them: how many are open at the end.
  unfoldable pub open_streams : (ℕ → Bool) → List ℕ → ℕ → ℕ → ℕ × List Event
  open_streams opens name i zero = (i, [])
  open_streams opens name i (suc k) =
      let (n, es) = open_streams opens name (suc i) k in
      if opens i then (n, fopen name true ∷ es) else (i, fopen name false ∷ [])

  -- `env` is whether `rtems_libio_set_private_env` succeeds, `opens i` whether the `i`-th `fopen` does.
  unfoldable pub spawned_shell : Bool → (ℕ → Bool) → World → List ℕ → List ℕ → List Event
  unfolding open_streams release_a_connection
  spawned_shell env opens w name peer =
      if not env
      then release_a_connection name peer opens 0 ++ free_args ∷ []
      else let (i, es) = open_streams opens name 0 3 in
        let body =
          if i == 3 then redirect true ∷ (guarded_shell w name ++ redirect false ∷ []) else [] in
        es ++ (body ++ (release_a_connection name peer opens i ++ free_args ∷ []))

-- The calls that set the daemon's socket up: the descriptor, what `bind` and `listen` return.
pub record Setup : Type 0 where
  pub socket : ℤ
  pub bind : ℤ
  pub listen : ℤ

-- The socket to accept on, or the end of the task.
unfoldable pub open_service : Setup → Option ℤ × List Event
open_service s =
    if is_neg s.socket
    then (none, delete_self ∷ [])
    else if is_neg s.bind
    then (none, close s.socket ∷ delete_self ∷ [])
    else if is_neg s.listen
    then (none, close s.socket ∷ delete_self ∷ [])
    else (some s.socket, [])
