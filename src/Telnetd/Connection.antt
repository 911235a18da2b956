-- ===== src/Telnetd/Connection.antt =====
-- A connection from its slot to its end: the shell task of telnetd/telnetd.c on the driver of telnetd/pty.c,
-- with termios between them, which is an interface here.
pub mod Differs
pub mod Frees
pub mod Slots
use rtems_ssrl_apps.Prelude.{
  ℕ, zero, suc, ◌≡◌, Bool, true, false, none, some, List, [], ◌∷◌, Option, if◌then◌else◌,
}
use rtems_ssrl_apps.Prelude.Int.{ℤ}
use rtems_ssrl_apps.Telnetd.Pty.Slot.{TermiosTty}
use rtems_ssrl_apps.Telnetd.Pty.Read.{Input}
use rtems_ssrl_apps.Telnetd.Pty.Driver.{
  Driver, Outcome, Control, Reply, pty_set_attributes, pty_poll_initialize, pty_shutdown,
  pty_poll_write, pty_poll_read, my_pty_control,
}
use rtems_ssrl_apps.Telnetd.Daemon.{Event, fopen, fclose, passwd, shell}

-- termios on the device `minor`: it counts the opens, calls `ptyPollInitialize` at the first and `ptyShutdown`
-- at the last close, and nothing of the driver at the others.
pub record Termios (minor : ℕ) : Type 1 where
  pub State : Type 0
  pub b9600_cs8 : ℕ
  pub tty : TermiosTty
  pub opens : State → ℕ
  pub open_device : State → Driver → State × Driver
  pub close_device : State → Driver → State × Driver
  pub opens-open : (s : State) (d : Driver) → opens (open_device s d).0 ≡ suc (opens s)
  pub opens-close :
      (s : State) (d : Driver) (n : ℕ) → opens s ≡ suc n → opens (close_device s d).0 ≡ n
  pub open_first :
      (s : State) (d : Driver) (o : Outcome)
      → opens s ≡ 0
      → pty_poll_initialize b9600_cs8 minor tty d ≡ some o
      → (open_device s d).1 ≡ o.driver
  pub open_again : (s : State) (d : Driver) (n : ℕ) → opens s ≡ suc n → (open_device s d).1 ≡ d
  pub close_last :
      (s : State) (d : Driver) (o : Outcome)
      → opens s ≡ 1
      → pty_shutdown minor d ≡ some o
      → (close_device s d).1 ≡ o.driver
  pub close_before :
      (s : State) (d : Driver) (n : ℕ) → opens s ≡ suc (suc n) → (close_device s d).1 ≡ d

-- What is done with an open device.
pub data Use : Type 0 where
  read_in : Input → Use
  write_out : (count : ℤ) → List ℕ → Use
  attributes : ℕ → Use
  control : Control → Use

-- The driver that a call leaves; one that faults leaves it as it was.
abbrev pub driver_of : Driver → Option Outcome → Driver
driver_of d none = d
driver_of d (some o) = o.driver

abbrev pub driver_behind : Driver → Option (Reply × Driver) → Driver
driver_behind d none = d
driver_behind d (some r) = r.1

unfoldable pub use_device : ℕ → Use → Driver → Driver
use_device minor (read_in input) d = driver_of d (pty_poll_read input minor d)
use_device minor (write_out count buf) d = driver_of d (pty_poll_write count minor buf d)
use_device minor (attributes cflag) d = driver_of d (pty_set_attributes minor cflag d)
use_device minor (control c) d = driver_behind d (my_pty_control c minor d)

unfoldable pub use_all : ℕ → List Use → Driver → Driver
unfolding use_device
use_all minor [] d = d
use_all minor (u ∷ us) d = use_all minor us (use_device minor u d)

module _ {minor : ℕ} (t : Termios minor) (uses : Event → List Use) where
  -- An event of the shell task, on termios and the driver. `uses` is what the shell or the password check
  -- does with the device at an event of theirs.
  unfoldable pub perform : Event → t.State × Driver → t.State × Driver
  perform (fopen _ opened) (s, d) = if opened then t.open_device s d else (s, d)
  perform (fclose _) (s, d) = t.close_device s d
  perform (shell name) (s, d) = (s, use_all minor (uses (shell name)) d)
  perform (passwd e) (s, d) = (s, use_all minor (uses (passwd e)) d)
  perform _ (s, d) = (s, d)

  unfoldable pub perform_all : List Event → t.State × Driver → t.State × Driver
  unfolding perform
  perform_all [] c = c
  perform_all (e ∷ es) c = perform_all es (perform e c)
