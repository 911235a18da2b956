-- ===== src/Telnetd/Daemon/Serve.antt =====
-- What becomes of a connection that the daemon of telnetd/telnetd.c accepts.
use rtems_ssrl_apps.Prelude.{
  ℕ, Bool, true, false, ◌∙◌, ◌==◌, none, some, List, [], ◌∷◌, ◌++◌, map, ◌≡◌, ◌⊎◌, refl, inl, inr,
  arith, if◌then◌else◌, Bool-cases, Option-cases,
}
use rtems_ssrl_apps.Prelude.Int.{ℤ, pos, negsuc, is_neg, is_nonzero}
use rtems_ssrl_apps.Telnetd.Passwd.{check_passwd}
use rtems_ssrl_apps.Telnetd.Passwd
use rtems_ssrl_apps.Telnetd.Pty.Driver
use rtems_ssrl_apps.Telnetd.Pty.Driver.{Driver, Call, claim, telnet_get_pty}
use rtems_ssrl_apps.Telnetd.Daemon.{
  Event, driver, log_no_pty, log_accepted, sleep, spawn, fopen, passwd, Peer, peer_name, Round,
  grab_a_connection, guarded_shell, malloc_args, drop, give_up, serve_grabbed, dispatch, serve,
  close, shell, fclose, release_a_connection, close_streams,
}

-- The life of a connection: it is accepted; its device is open as a dummy; it is disposed of, by closing
-- the socket, by handing it to a task or to a shell, or by closing the device that was opened as a dummy;
-- or there is an event out of order.
pub data Life : Type 0 where
  accepted : Life
  dummy_open : Life
  disposed : Life
  disorder : Life

abbrev pub same_socket : ℤ → ℤ → Bool
same_socket (pos m) (pos n) = m == n
same_socket (pos m) (negsuc n) = false
same_socket (negsuc m) (pos n) = false
same_socket (negsuc m) (negsuc n) = m == n

-- What is done with the socket, the device and its streams.
pub data Deed : Type 0 where
  closes : ℤ → Deed
  hands_over : Deed
  opens : Deed
  ends : (stream : ℕ) → Deed
  nothing : Deed

abbrev pub deed : Event → Deed
deed (driver (Driver.close s)) = closes s
deed (close s) = closes s
deed (spawn _ started) = if started then hands_over else nothing
deed (shell _) = hands_over
deed (fopen _ opened) = if opened then opens else nothing
deed (fclose n) = ends n
deed _ = nothing

abbrev pub lives : (sock : ℤ) → Life → Deed → Life
lives sock l nothing = l
lives sock accepted (closes s) = if same_socket s sock then disposed else disorder
lives sock accepted hands_over = disposed
lives sock accepted opens = dummy_open
lives sock dummy_open (ends n) = if n == 0 then disposed else disorder
lives sock _ _ = disorder

-- The life behind a list of events.
abbrev pub life : (sock : ℤ) → Life → List Event → Life
life sock l [] = l
life sock l (e ∷ es) = life sock (lives sock l (deed e)) es

life-append :
    (sock : ℤ) (l : Life) (xs ys : List Event)
    → life sock l (xs ++ ys) ≡ life sock (life sock l xs) ys
life-append sock l [] ys = refl
life-append sock l (x ∷ xs) ys = life-append sock (lives sock l (deed x)) xs ys

life-passwd : (sock : ℤ) (l : Life) (ps : List Passwd.Event) → life sock l (map passwd ps) ≡ l
life-passwd sock l [] = refl
life-passwd sock l (p ∷ ps) = life-passwd sock l ps

same_socket_refl : (s : ℤ) → same_socket s s ≡ true
same_socket_refl (pos n) = ground arith
same_socket_refl (negsuc n) = ground arith

-- `telnet_get_pty` closes the socket or takes a slot for it.
closed_or_taken :
    (sock : ℤ) (d : Driver)
    → (telnet_get_pty sock d ≡ (none, d, Driver.close sock ∷ []))
      ⊎ ((name : List ℕ) × (e : Driver) × (telnet_get_pty sock d
            ≡ (some name, e, Driver.set_rcvtimeo sock 2 ∷ [])))
unfolding telnet_get_pty
closed_or_taken sock d = elim (Option-cases (if d.inited then claim sock d.ptys else none)) [
  | inl n ↦ inl (rw (n, telnet_get_pty) refl)
  | inr ((name, ps), n) ↦ inr (name, record d { ptys = ps }, rw (n, telnet_get_pty) refl)
]

grabbed_nothing :
    (sock : ℤ) (p : Peer) (d : Driver)
    → is_neg sock ≡ false
    → telnet_get_pty sock d ≡ (none, d, Driver.close sock ∷ [])
    → grab_a_connection sock p d ≡ (none, d, driver (Driver.close sock) ∷ log_no_pty ∷ [])
unfolding grab_a_connection
grabbed_nothing sock p d a g = rw (a, g, grab_a_connection) refl

grabbed_slot :
    (sock : ℤ) (p : Peer) (d : Driver) {name : List ℕ} {e : Driver}
    → is_neg sock ≡ false
    → telnet_get_pty sock d ≡ (some name, e, Driver.set_rcvtimeo sock 2 ∷ [])
    → grab_a_connection sock p d ≡ (
      some (name, peer_name sock p),
      e,
      driver (Driver.set_rcvtimeo sock 2) ∷ log_accepted (peer_name sock p) name ∷ [],
    )
unfolding grab_a_connection
grabbed_slot sock p d a g = rw (a, g, grab_a_connection) refl

module _ (crypt : List ℕ → List ℕ → List ℕ) where
  child-Disposes :
      (r : Round) (name peer : List ℕ) (es : List Event)
      → r.malloc ≡ true
      → r.dummy ≡ true
      → life r.accept accepted es ≡ accepted
      → (fs : List Event) × (dispatch crypt false r name peer ≡ some fs)
        × (life r.accept accepted (es ++ fs) ≡ disposed)
  unfolding dispatch give_up release_a_connection close_streams
  child-Disposes r name peer es m o z = elim (Bool-cases r.spawned) [
    | inl b ↦
        let fs = malloc_args ∷ spawn (drop 5 name) true ∷ [] in
        (fs, rw (m, b, dispatch) refl, rw (life-append r.accept accepted es fs, z) refl)
    | inr b ↦
        let fs = malloc_args ∷ spawn (drop 5 name) false ∷ give_up true name peer in
        (fs, rw (m, b, o, dispatch) refl, rw (life-append r.accept accepted es fs, z) refl)
  ]

  -- With tasks for the shells, with memory for their arguments and a device that opens, the daemon disposes
  -- of every connection it accepts exactly once: it closes the socket, hands the connection to a task, or
  -- opens the device as a dummy and then closes it.
  pub serve-Disposes :
      (r : Round) (d : Driver)
      → is_neg r.accept ≡ false
      → r.malloc ≡ true
      → r.dummy ≡ true
      → (e : Driver) × (es : List Event) × (serve crypt false r d ≡ some (e, es))
        × (life r.accept accepted es ≡ disposed)
  unfolding serve
  serve-Disposes r d a m o = elim (closed_or_taken r.accept d) [
    | inl g ↦
        let es = driver (Driver.close r.accept) ∷ log_no_pty ∷ sleep 10 ∷ [] in
        (
          d,
          es,
          rw (grabbed_nothing r.accept r.peer d a g, serve) refl,
          rw (same_socket_refl r.accept) refl,
        )
    | inr (name, e, g) ↦
        let peer = peer_name r.accept r.peer in
        let es = driver (Driver.set_rcvtimeo r.accept 2) ∷ log_accepted peer name ∷ [] in
        let (fs, h, k) = child-Disposes r name peer es m o refl in
        (e, es ++ fs, rw (grabbed_slot r.accept r.peer d a g, h, serve, serve_grabbed) refl, k)
  ]

  -- Without memory for a task's arguments, a connection that has got a slot makes the daemon use NULL.
  pub serve_no_memory :
      (r : Round) (d : Driver) {name : List ℕ} {e : Driver}
      → is_neg r.accept ≡ false
      → r.malloc ≡ false
      → telnet_get_pty r.accept d ≡ (some name, e, Driver.set_rcvtimeo r.accept 2 ∷ [])
      → serve crypt false r d ≡ none
  unfolding serve dispatch
  serve_no_memory r d a m g = rw (grabbed_slot r.accept r.peer d a g, m, serve, dispatch) refl

  -- Without tasks for the shells, a client that check_passwd refuses leaves its slot taken: its socket is
  -- not closed, its device never opened, and the connection handed to no task and no shell.
  pub serve_refused :
      (r : Round) (d : Driver) {name : List ℕ} {e : Driver}
      → is_neg r.accept ≡ false
      → telnet_get_pty r.accept d ≡ (some name, e, Driver.set_rcvtimeo r.accept 2 ∷ [])
      → is_nonzero (check_passwd crypt r.passwd).0 ≡ true
      → (es : List Event) × (serve crypt true r d ≡ some (e, es))
        × (life r.accept accepted es ≡ accepted)
  unfolding serve dispatch guarded_shell
  serve_refused r d {name} a g p =
      let ps = (check_passwd crypt r.passwd).1 in
      let es =
        driver (Driver.set_rcvtimeo r.accept 2)
        ∷ log_accepted (peer_name r.accept r.peer) name
        ∷ [] in
      (
        es ++ (map passwd ps ++ []),
        rw (grabbed_slot r.accept r.peer d a g, p, serve, dispatch, guarded_shell) refl,
        life-append r.accept accepted (map passwd ps) [] ∙ life-passwd r.accept accepted ps,
      )
