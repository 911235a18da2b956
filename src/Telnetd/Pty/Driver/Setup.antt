-- ===== src/Telnetd/Pty/Driver/Setup.antt =====
-- Loading and unloading of the driver: `my_pty_initialize`, `pty_do_finalize`, `pty_do_initialize`.
-- The allocation of the device names is taken to succeed, as the source takes it.
use rtems_ssrl_apps.Prelude.{
  ℕ, suc, ◌+◌, Bool, true, false, not, Option, none, some, List, [], ◌∷◌, ◌++◌, ltb, if◌then◌else◌,
  codes,
}
use rtems_ssrl_apps.Prelude.Int.{pos, minus_one}
use rtems_ssrl_apps.Telnetd.Pty.Slot.{Pty}
use rtems_ssrl_apps.Telnetd.Pty.Driver.{
  Driver, Call, Outcome, outcome, chmod, chown, unregister_driver, unlink,
}

-- `%X` of a number below 16.
abbrev pub hex_digit : ℕ → ℕ
hex_digit n = if ltb n 10 then 48 + n else 55 + n

abbrev pub device_name : ℕ → List ℕ
device_name ndx = codes "/dev/pty" ++ hex_digit ndx ∷ []

-- The first loop of `my_pty_initialize`; `cs8_b9600` is termios' `CS8|B9600`.
unfoldable pub init_slots : ℕ → ℕ → List Pty → List Pty
init_slots cs8_b9600 ndx [] = []
init_slots cs8_b9600 ndx (p ∷ ps) =
    record p {
      devname = device_name ndx;
      ttyp = none;
      c_cflag = cs8_b9600;
      socket = minus_one;
      opened = false;
      sb_ind = 0;
      width = 0;
      height = 0;
    }
    ∷ init_slots cs8_b9600 (suc ndx) ps

-- The second loop: `register ndx` tells whether RTEMS registers the name; if not, the system stops.
unfoldable pub register_names : (ℕ → Bool) → ℕ → List Pty → Option (List Call)
register_names register ndx [] = some []
register_names register ndx (p ∷ ps) = elim (register_names register (suc ndx) ps) [
  | none ↦ none
  | some cs ↦ if register ndx then some (chmod p.devname 0o660 ∷ chown p.devname 2 0 ∷ cs) else none
]

-- `none` is `rtems_fatal_error_occurred`.
unfoldable pub my_pty_initialize : ℕ → (ℕ → Bool) → Driver → Option Outcome
unfolding init_slots register_names
my_pty_initialize cs8_b9600 register d =
    let ps = init_slots cs8_b9600 0 d.ptys in
    elim (register_names register 0 ps) [
      | none ↦ none
      | some cs ↦ some (outcome (pos 0) (record d { ptys = ps }) cs)
    ]

unfoldable pub any_opened : List Pty → Bool
any_opened [] = false
any_opened (p ∷ ps) = let rest = any_opened ps in if p.opened then true else rest

unlink_names : List Pty → List Call
unlink_names [] = []
unlink_names (p ∷ ps) = unlink p.devname ∷ unlink_names ps

-- `unregistered` tells whether RTEMS takes the driver out.
unfoldable pub pty_do_finalize : Bool → Driver → Outcome
unfolding unlink_names
pty_do_finalize unregistered d =
    if not d.inited
    then outcome (pos 0) d []
    else if any_opened d.ptys
    then outcome minus_one d []
    else if not unregistered
    then outcome minus_one d (unregister_driver ∷ [])
    else outcome (pos 0) (record d { inited = false }) (unregister_driver ∷ unlink_names d.ptys)

-- `register_driver` is what `rtems_io_register_driver` does: it calls the driver's initialization
-- and tells whether the driver is registered. The result is `telnet_pty_inited`.
unfoldable pub pty_do_initialize : (Driver → Bool × Driver) → Driver → Bool × Driver
pty_do_initialize register_driver d =
    if d.inited
    then (true, d)
    else let (done, d') = register_driver d in
      if done then (true, record d' { inited = true }) else (d'.inited, d')
