-- ===== src/Tests/Samples.antt =====
-- A slot and a driver to run on.
use rtems_ssrl_apps.Prelude.{ℕ, true, false, none, some, [], ◌∷◌, replicate}
use rtems_ssrl_apps.Prelude.Int.{pos, minus_one}
use rtems_ssrl_apps.Telnetd.Pty.Slot.{TermiosTty, Pty}
use rtems_ssrl_apps.Telnetd.Pty.Driver.{Driver}
use rtems_ssrl_apps.Telnetd.Pty.Driver.Setup.{device_name}

abbrev pub tty : TermiosTty
tty = record { cindex = 0; ccount = 7; veof = 4 }

-- An open slot behind socket 9.
abbrev pub open_pty : Pty
open_pty = record {
  devname = device_name 0;
  ttyp = some tty;
  c_cflag = 0;
  opened = true;
  socket = pos 9;
  last_cr = false;
  iac_mode = 0;
  sb_buf = replicate 16 0;
  sb_ind = 0;
  width = 80;
  height = 24;
}

-- The same slot behind a CR.
abbrev pub cr_pty : Pty
cr_pty = record open_pty { last_cr = true }

-- The slot of `/dev/ptyn`, with no connection.
abbrev pub free_pty : ℕ → Pty
free_pty n = record open_pty {
  devname = device_name n;
  ttyp = none;
  opened = false;
  socket = minus_one;
}

-- A loaded driver with one connection.
abbrev pub driver : Driver
driver = record {
  inited = true;
  ptys = open_pty ∷ free_pty 1 ∷ free_pty 2 ∷ free_pty 3 ∷ free_pty 4 ∷ [];
}

abbrev pub cr_driver : Driver
cr_driver = record driver { ptys = cr_pty ∷ free_pty 1 ∷ free_pty 2 ∷ free_pty 3 ∷ free_pty 4 ∷ [] }
