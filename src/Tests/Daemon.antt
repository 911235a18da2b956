-- ===== src/Tests/Daemon.antt =====
-- Runs of the daemon.
use rtems_ssrl_apps.Prelude.{
  ℕ, ◌≡◌, refl, not, ◌&&◌, Bool, true, false, none, some, List, [], ◌∷◌, ◌++◌, codes, ◌==◌,
}
use rtems_ssrl_apps.Prelude.Int.{pos, is_nonzero}
use rtems_ssrl_apps.Telnetd.Passwd.{World, check_passwd, ask}
use rtems_ssrl_apps.Telnetd.Pty.Driver.{Driver, telnet_get_pty, claim, set_rcvtimeo}
use rtems_ssrl_apps.Telnetd.Daemon.{Event, Round, spawned_shell, serve}
use rtems_ssrl_apps.Telnetd.Daemon.Serve.{accepted, disposed, life, serve-Disposes, serve_refused}
use rtems_ssrl_apps.Telnetd.Daemon.Shell.{
  follow, fresh, finished, runs_shell, spawned_shell-IsOrderly, spawned_shell-Runs,
}
use rtems_ssrl_apps.Telnetd.Daemon.Start.{Variables, Platform, start_telnetd}
use rtems_ssrl_apps.Tests.Samples.{driver}

abbrev plain_crypt : List ℕ → List ℕ → List ℕ
plain_crypt text salt = salt ++ text

-- A client that sends nothing, on a terminal that works.
abbrev mute : World
mute = record {
  passwd_env = none;
  tcgetattr = pos 0;
  tcsetattr = pos 0;
  fgets = λ _. none;
  ungetc = true;
}

-- A connection on socket 10 from 10.0.0.1.
abbrev round : Bool → Round
round memory = record {
  accept = pos 10;
  peer = record { getpeername = pos 0; inet_ntop = some (codes "10.0.0.1") };
  passwd = mute;
  malloc = memory;
  spawned = false;
  dummy = true;
}

serve-Disposes_example :
    (e : Driver) × (es : List Event) × (serve plain_crypt false (round true) driver ≡ some (e, es))
    × (life (pos 10) accepted es ≡ disposed)
serve-Disposes_example = serve-Disposes plain_crypt (round true) driver refl refl refl

second_slot :
    telnet_get_pty (pos 10) driver
    ≡ (some (codes "/dev/pty1"), (telnet_get_pty (pos 10) driver).1, set_rcvtimeo (pos 10) 2 ∷ [])
unfolding telnet_get_pty claim
second_slot = refl

mute_refused : is_nonzero (check_passwd plain_crypt mute).0 ≡ true
unfolding check_passwd ask
mute_refused = refl

serve_refused_example :
    (es : List Event) × (serve plain_crypt true (round true) driver
      ≡ some ((telnet_get_pty (pos 10) driver).1, es))
    × (life (pos 10) accepted es ≡ accepted)
serve_refused_example = serve_refused plain_crypt (round true) driver refl second_slot mute_refused

-- A device that opens twice.
abbrev twice : ℕ → Bool
twice n = not (n == 2)

spawned_shell-IsOrderly_example :
    follow (spawned_shell plain_crypt true twice mute (codes "/dev/pty1") (codes "10.0.0.1")) fresh
    ≡ finished
spawned_shell-IsOrderly_example =
    spawned_shell-IsOrderly plain_crypt true twice mute (codes "/dev/pty1") (codes "10.0.0.1")

spawned_shell-Runs_example :
    runs_shell (spawned_shell plain_crypt true twice mute (codes "/dev/pty1") (codes "10.0.0.1"))
    ≡ (true && (true && (true && (false && not (is_nonzero (check_passwd plain_crypt mute).0)))))
spawned_shell-Runs_example =
    spawned_shell-Runs plain_crypt true twice mute (codes "/dev/pty1") (codes "10.0.0.1")

abbrev platform : Platform
platform = record {
  minimum_stack_size = 8192;
  network_task_priority = pos 1;
  pty_initialized = true;
  spawned = true;
}

abbrev unset : Variables
unset = record {
  task_id = 0;
  stack_size = 32000;
  task_priority = 0;
  dont_spawn = false;
  shell = 0;
  shell_arg = 0;
}

starts : (start_telnetd platform 0x2000 0 false (pos 0) (pos 0) unset).code ≡ pos 0
unfolding start_telnetd
starts = refl
