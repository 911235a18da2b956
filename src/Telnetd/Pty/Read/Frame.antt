-- ===== src/Telnetd/Pty/Read/Frame.antt =====
-- What `read_pty` leaves of a slot when it is given a byte.
use rtems_ssrl_apps.Prelude.{ℕ, ◌%◌, ◌≡◌, Bool, true, false, arith, ◌==◌, if◌then◌else◌}
use rtems_ssrl_apps.Telnetd.Pty.Slot.{Pty}
use rtems_ssrl_apps.Telnetd.Pty.Read.{Result, handle_sb, after_esc, in_sb, plain, read_byte}

-- The name, the socket, the state and the termios structure are the same.
pub record Framed (p q : Pty) : Type 0 where
  pub opened : q.opened ≡ p.opened
  pub socket : q.socket ≡ p.socket
  pub ttyp : q.ttyp ≡ p.ttyp
  pub devname : q.devname ≡ p.devname

if-Framed :
    (b : Bool) {p : Pty} (r s : Result)
    → Framed p r.pty
    → Framed p s.pty
    → Framed p (if b then r else s).pty
if-Framed true r s h k = h
if-Framed false r s h k = k

handle_sb-Framed : (p : Pty) → Framed p (handle_sb p)
unfolding handle_sb
handle_sb-Framed p = ground arith

cleared-Framed : (p q : Pty) → Framed (record p { iac_mode = 0 }) q → Framed p q
cleared-Framed p q h = ground arith

after_esc-Framed : (omod value : ℕ) (p : Pty) → Framed p (after_esc omod value p).pty
unfolding after_esc
after_esc-Framed omod value p = ground (arith, handle_sb-Framed p)

in_sb-Framed : (omod value : ℕ) (p : Pty) → Framed p (in_sb omod value p).pty
unfolding in_sb
in_sb-Framed omod value p = ground arith

plain-Framed : (value : ℕ) (p : Pty) → Framed p (plain value p).pty
unfolding plain
plain-Framed value p = ground arith

cleared : (p : Pty) → Framed p (record p { iac_mode = 0 })
cleared p = ground arith

-- A byte changes neither the name, the socket, the state nor the termios structure of a slot.
pub read_byte-Framed : (value : ℕ) (p : Pty) → Framed p (read_byte value p).pty
unfolding read_byte
read_byte-Framed value p =
    let q = record p { iac_mode = 0 } in
    let m = p.iac_mode % 256 in
    let c = cleared p in
    if-Framed (m == 255) _ _ (cleared-Framed p _ (after_esc-Framed p.iac_mode value q)) (
      if-Framed (m == 250) _ _ (cleared-Framed p _ (in_sb-Framed p.iac_mode value q)) (
        if-Framed (m == 251) _ _ c (
          if-Framed (m == 254) _ _ c (
            if-Framed (m == 253) _ _ c
              (if-Framed (m == 252) _ _ c (cleared-Framed p _ (plain-Framed value q)))))))
