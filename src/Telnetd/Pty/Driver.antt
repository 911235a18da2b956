-- ===== src/Telnetd/Pty/Driver.antt =====
-- The table of slots of telnetd/pty.c and the functions that claim, open, use and release them.
-- An access to the table out of its range is `none`, as is the use of a NULL `ttyp`.
pub mod Claims
pub mod Invariant
pub mod Loading
pub mod Release
pub mod Setup
pub mod Size
pub mod Slots
pub mod Steps
use rtems_ssrl_apps.Prelude.{
  ℕ, suc, ◌+◌, ◌%◌, ◌^◌, Bool, true, false, not, ◌||◌, Option, none, some, List, [], ◌∷◌, ◌++◌, map,
  ltb, if◌then◌else◌, get_elem?, set, codes,
}
use rtems_ssrl_apps.Prelude.Int.{ℤ, pos, is_neg, minus_one}
use rtems_ssrl_apps.Telnetd.Pty.Slot.{TermiosTty, Pty, max_ptys}
use rtems_ssrl_apps.Telnetd.Pty.Read.{Input, Result, read_pty}

-- `telnet_pty_inited` and `telnet_ptys`.
pub record Driver : Type 0 where
  pub inited : Bool
  pub ptys : List Pty

-- The calls that the driver makes of the system.
pub data Call : Type 0 where
  set_rcvtimeo : ℤ → ℕ → Call
  close : ℤ → Call
  write : ℤ → List ℕ → Call
  chmod : List ℕ → ℕ → Call
  chown : List ℕ → ℕ → ℕ → Call
  unregister_driver : Call
  unlink : List ℕ → Call

-- The code returned, the driver afterwards, and the calls made, in order.
pub record Outcome : Type 0 where
  pub code : ℤ
  pub driver : Driver
  pub calls : List Call

abbrev pub outcome : ℤ → Driver → List Call → Outcome
outcome c d cs = record { code = c; driver = d; calls = cs }

-- The loop of `telnet_get_pty`: the first slot with no socket takes the one given.
unfoldable pub claim : ℤ → List Pty → Option (List ℕ × List Pty)
claim socket [] = none
claim socket (p ∷ ps) =
    if is_neg p.socket
    then some (p.devname, record p { socket = socket } ∷ ps)
    else elim (claim socket ps) [ none ↦ none | some (name, qs) ↦ some (name, p ∷ qs) ]

-- The device's name, the driver and the calls.
unfoldable pub telnet_get_pty : ℤ → Driver → Option (List ℕ) × Driver × List Call
telnet_get_pty socket d = elim (if d.inited then claim socket d.ptys else none) [
  | none ↦ (none, d, close socket ∷ [])
  | some (name, ps) ↦ (some name, record d { ptys = ps }, set_rcvtimeo socket 2 ∷ [])
]

-- `if (minor<MAX_PTYS) { … telnet_ptys[minor] … } else return -1`.
abbrev on_slot : ℕ → Driver → (Pty → Option Outcome) → Option Outcome
on_slot minor d k =
    if ltb minor max_ptys
    then elim (get_elem? d.ptys minor) [ none ↦ none | some p ↦ k p ]
    else some (outcome minus_one d [])

abbrev pub put : ℕ → Pty → Driver → Driver
put minor p d = record d { ptys = set d.ptys minor p }

unfoldable pub pty_set_attributes : ℕ → ℕ → Driver → Option Outcome
pty_set_attributes minor cflag d =
    on_slot minor d λ p. some (outcome (pos 0) (put minor (record p { c_cflag = cflag }) d) [])

-- The slot that `ptyPollInitialize` opens.
unfoldable pub open_slot : TermiosTty → Pty → Pty
open_slot tty p = record p {
  opened = true;
  ttyp = some tty;
  iac_mode = 0;
  sb_ind = 0;
  width = 0;
  height = 0;
}

-- `b9600_cs8` is termios' `B9600|CS8`, `tty` what the open passes in `args->iop->data1`.
unfoldable pub pty_poll_initialize : ℕ → ℕ → TermiosTty → Driver → Option Outcome
unfolding open_slot pty_set_attributes
pty_poll_initialize b9600_cs8 minor tty d = on_slot minor d λ p.
    if is_neg p.socket
    then some (outcome minus_one d [])
    else pty_set_attributes minor b9600_cs8 (put minor (open_slot tty p) d)

unfoldable pub pty_shutdown : ℕ → Driver → Option Outcome
pty_shutdown minor d = on_slot minor d λ p. some (
    outcome (pos 0) (put minor (record p { opened = false; socket = minus_one }) d)
      ((if is_neg p.socket then [] else close p.socket ∷ []) ++ chown p.devname 2 0 ∷ []))

-- `count` is what `write` returns.
unfoldable pub pty_poll_write : ℤ → ℕ → List ℕ → Driver → Option Outcome
pty_poll_write count minor buf d = on_slot minor d λ p.
    if is_neg p.socket
    then some (outcome minus_one d [])
    else some (outcome count d (write p.socket buf ∷ []))

unfoldable pub pty_poll_read : Input → ℕ → Driver → Option Outcome
pty_poll_read input minor d = on_slot minor d λ p.
    if is_neg p.socket then some (outcome minus_one d []) else elim (read_pty input p) [
      | none ↦ none
      | some r ↦ some (outcome r.code (put minor r.pty d) (map (write p.socket) r.sent))
    ]

-- The two window commands of `my_pty_control`; any other goes on to termios.
pub data Control : Type 0 where
  tiocgwinsz : Control
  tiocswinsz : (row col : ℕ) → Control
  other : Control

-- A `struct winsize` that is handed back, success, or the request left to termios.
pub data Reply : Type 0 where
  winsize : (row col : ℕ) → Reply
  successful : Reply
  termios_ioctl : Reply

unfoldable pub my_pty_control : Control → ℕ → Driver → Option (Reply × Driver)
my_pty_control tiocgwinsz minor d = elim (get_elem? d.ptys minor) [
  | none ↦ none
  | some p ↦ some (winsize (p.height % 2 ^ 16) (p.width % 2 ^ 16), d)
]
my_pty_control (tiocswinsz row col) minor d = elim (get_elem? d.ptys minor) [
  | none ↦ none
  | some p ↦ some (successful, put minor (record p { height = row; width = col }) d)
]
my_pty_control other minor d = some (termios_ioctl, d)
