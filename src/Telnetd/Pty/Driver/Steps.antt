-- ===== src/Telnetd/Pty/Driver/Steps.antt =====
-- The driver as a state machine: what holds after any sequence of the calls that termios and telnetd
-- make of it.
use mathlib.Core.Path.{subst}
use rtems_ssrl_apps.Prelude.{ℕ, ◌≡◌, ◌≢◌, true, none, some, List, arith, get_elem?}
use rtems_ssrl_apps.Prelude.Int.{ℤ, pos}
use rtems_ssrl_apps.Telnetd.Pty.Slot.{TermiosTty, Pty}
use rtems_ssrl_apps.Telnetd.Pty.Read.{Input, read_pty}
use rtems_ssrl_apps.Telnetd.Pty.Driver.{
  Driver, Outcome, telnet_get_pty, pty_set_attributes, pty_poll_initialize, pty_shutdown,
  pty_poll_write, pty_poll_read, Control, Reply, my_pty_control,
}
use rtems_ssrl_apps.Telnetd.Pty.Driver.Claims.{telnet_get_pty-Granted}
use rtems_ssrl_apps.Telnetd.Pty.Driver.Slots.{IsDriver, IsSlot-at, get_elem?-bound}
use rtems_ssrl_apps.Telnetd.Pty.Driver.Invariant.{
  IsInput, IsControl, Keeps, KeepsReply, Granted-IsDriver, attributes-Keeps, shutdown-Keeps,
  write-Keeps, read-Keeps, open-Keeps, control-Keeps,
}

-- One call of the driver: a connection arrives, or termios calls back.
pub data Step (d : Driver) : Driver → Type 0 where
  get : (socket : ℕ) → Step d (telnet_get_pty (pos socket) d).1
  attributes :
      (minor cflag : ℕ) {o : Outcome} → pty_set_attributes minor cflag d ≡ some o → Step d o.driver
  first_open :
      (cflag minor : ℕ) (tty : TermiosTty) {o : Outcome}
      → pty_poll_initialize cflag minor tty d ≡ some o
      → Step d o.driver
  last_close : (minor : ℕ) {o : Outcome} → pty_shutdown minor d ≡ some o → Step d o.driver
  write_out :
      (count : ℤ) (minor : ℕ) (buf : List ℕ) {o : Outcome}
      → pty_poll_write count minor buf d ≡ some o
      → Step d o.driver
  read_in :
      (input : Input) (minor : ℕ) {o : Outcome}
      → IsInput input
      → pty_poll_read input minor d ≡ some o
      → Step d o.driver
  control :
      (c : Control) (minor : ℕ) {r : Reply × Driver}
      → IsControl c
      → my_pty_control c minor d ≡ some r
      → Step d r.1

pub data Reach (d : Driver) : Driver → Type 0 where
  here : Reach d d
  next : {e f : Driver} → Reach d e → Step e f → Reach d f

pub Step-IsDriver : {d e : Driver} → Step d e → IsDriver d → IsDriver e
Step-IsDriver {d} (get socket) h =
    Granted-IsDriver socket d _ h (telnet_get_pty-Granted (pos socket) d)
Step-IsDriver {d} (attributes minor cflag e) h = subst Keeps e (attributes-Keeps d h minor cflag)
Step-IsDriver {d} (first_open cflag minor tty e) h = subst Keeps e (open-Keeps d cflag minor tty h)
Step-IsDriver {d} (last_close minor e) h = subst Keeps e (shutdown-Keeps d h minor)
Step-IsDriver {d} (write_out count minor buf e) h = subst Keeps e (write-Keeps d h count minor buf)
Step-IsDriver {d} (read_in input minor i e) h = subst Keeps e (read-Keeps d h input minor i)
Step-IsDriver {d} (control c minor i e) h = subst KeepsReply e (control-Keeps d c minor i h)

-- Whatever sequence of connections, opens, reads of any bytes, writes, window changes and closes
-- the driver sees: there stay five slots under their names, an open one has a socket and a termios
-- structure, and every subnegotiation buffer, mode and window size stays in its bounds.
pub Reach-IsDriver : {d e : Driver} → Reach d e → IsDriver d → IsDriver e
Reach-IsDriver here h = h
Reach-IsDriver (next r s) h = Step-IsDriver s (Reach-IsDriver r h)

-- A read from an open slot of such a driver uses no NULL pointer and no slot out of the table,
-- whatever the socket gives; at the end of the stream it returns termios' VEOF.
pub opened_read_defined :
    (d : Driver) (minor : ℕ) (input : Input) {p : Pty}
    → IsDriver d
    → get_elem? d.ptys minor ≡ some p
    → p.opened ≡ true
    → pty_poll_read input minor d ≢ none
unfolding pty_poll_read read_pty
opened_read_defined d minor input {p} h at o =
    ground (arith, get_elem?-bound d.ptys minor at, h.count, IsSlot-at d minor h at)
