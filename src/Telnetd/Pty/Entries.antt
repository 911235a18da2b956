-- ===== src/Telnetd/Pty/Entries.antt =====
-- telnetd/pty.c: the entry points of the driver that pass a call on to termios, the table of the entry
-- points, and the callbacks that termios is given. What termios returns is a parameter.
use rtems_ssrl_apps.Prelude.{ℕ, Bool, false, Option, none, some}

-- The routines that termios calls back, and the entry points.
pub data Routine : Type 0 where
  poll_initialize : Routine
  shutdown : Routine
  poll_read : Routine
  poll_write : Routine
  set_attributes : Routine

-- `rtems_termios_callbacks`; `none` is NULL.
pub record Callbacks : Type 0 where
  pub first_open : Option Routine
  pub last_close : Option Routine
  pub read : Option Routine
  pub write : Option Routine
  pub attributes : Option Routine
  pub stop_remote_tx : Option Routine
  pub start_remote_tx : Option Routine
  pub output_uses_interrupts : ℕ

unfoldable pub pty_poll_callbacks : Callbacks
pty_poll_callbacks = record {
  first_open = some poll_initialize;
  last_close = some shutdown;
  read = some poll_read;
  write = some poll_write;
  attributes = some set_attributes;
  stop_remote_tx = none;
  start_remote_tx = none;
  output_uses_interrupts = 0;
}

unfoldable pub pty_get_termios_handlers : (polled : Bool) → Callbacks
pty_get_termios_handlers polled = pty_poll_callbacks

-- The calls of termios. `arg` is the address of the kernel's arguments.
pub data TermiosCall : Type 0 where
  termios_open : (major minor arg : ℕ) → Callbacks → TermiosCall
  termios_close : (arg : ℕ) → TermiosCall
  termios_read : (arg : ℕ) → TermiosCall
  termios_write : (arg : ℕ) → TermiosCall

module _ (termios : TermiosCall → ℕ) where
  unfoldable pub my_pty_open : (major minor arg : ℕ) → ℕ
  my_pty_open major minor arg =
      termios (termios_open major minor arg (pty_get_termios_handlers false))

  unfoldable pub my_pty_close : (major minor arg : ℕ) → ℕ
  my_pty_close major minor arg = termios (termios_close arg)

  unfoldable pub my_pty_read : (major minor arg : ℕ) → ℕ
  my_pty_read major minor arg = termios (termios_read arg)

  unfoldable pub my_pty_write : (major minor arg : ℕ) → ℕ
  my_pty_write major minor arg = termios (termios_write arg)

-- `rtems_driver_address_table`, with its six entries in order.
pub record DriverTable {ℓ} (A : Type ℓ) : Type ℓ where
  pub initialization : A
  pub opening : A
  pub closing : A
  pub reading : A
  pub writing : A
  pub control : A

-- `drvPty`, of `my_pty_initialize` and `my_pty_control`.
unfoldable pub drv_pty :
    (initialize control : (major minor arg : ℕ) → ℕ)
    → (termios : TermiosCall → ℕ) → DriverTable ((major minor arg : ℕ) → ℕ)
drv_pty initialize control termios = record {
  initialization = initialize;
  opening = my_pty_open termios;
  closing = my_pty_close termios;
  reading = my_pty_read termios;
  writing = my_pty_write termios;
  control = control;
}
