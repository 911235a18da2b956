-- ===== src/Telnetd/Connection/Differs.antt =====
-- What calls of telnetd/pty.c do to the slot of a connection and to the other slots.
use rtems_ssrl_apps.Prelude.{
  ℕ, zero, suc, ◌<◌, ◌≡◌, refl, sym, ap, ◌∙◌, Bool, true, false, not, some, List, [], ◌∷◌, arith,
  get_elem?, set, length, ltb, get_elem?-set_self, Option-cases, inl, inr,
}
use mathlib.Core.Path.{subst}
use rtems_ssrl_apps.Prelude.Int.{pos, is_neg, minus_one}
use rtems_ssrl_apps.Telnetd.Pty.Slot.{Pty, TermiosTty, max_ptys}
use rtems_ssrl_apps.Telnetd.Pty.Read.{Input, failed, eof, byte, Result, read_pty}
use rtems_ssrl_apps.Telnetd.Pty.Read.Frame.{read_byte-Framed}
use rtems_ssrl_apps.Telnetd.Pty.Driver.{
  Driver, Outcome, outcome, put, open_slot, tiocgwinsz, tiocswinsz, other, pty_set_attributes,
  pty_poll_initialize, pty_shutdown, pty_poll_write, pty_poll_read, my_pty_control,
}
use rtems_ssrl_apps.Telnetd.Pty.Driver.Release.{pty_shutdown-frees}
use rtems_ssrl_apps.Telnetd.Connection.{
  Use, read_in, write_out, attributes, control, driver_of, use_device, use_all,
}

set-set : (xs : List Pty) (i : ℕ) (p q : Pty) → set (set xs i p) i q ≡ set xs i q
set-set [] i p q = refl
set-set (x ∷ xs) zero p q = refl
set-set (x ∷ xs) (suc i) p q = ap (◌∷◌ x) (set-set xs i p q)

pub set-get_elem? : (xs : List Pty) (i : ℕ) {p : Pty} → get_elem? xs i ≡ some p → set xs i p ≡ xs
set-get_elem? [] i e = refl
set-get_elem? (x ∷ xs) zero {p} e = let same : x ≡ p = cc in rw same refl
set-get_elem? (x ∷ xs) (suc i) e = ap (◌∷◌ x) (set-get_elem? xs i e)

read_pty-socket :
    (input : Input) (p : Pty) {r : Result} → read_pty input p ≡ some r → r.pty.socket ≡ p.socket
unfolding read_pty
read_pty-socket failed p h = ground arith
read_pty-socket eof p h = ground arith
read_pty-socket (byte v) p h = ground (arith, read_byte-Framed v p)

-- The driver `d` is `e` but for the slot `minor`, which has a socket exactly if `taken`.
pub record Differs (minor : ℕ) (taken : Bool) (e d : Driver) : Type 0 where
  pub slot : Pty
  pub same : d.ptys ≡ set e.ptys minor slot
  pub socket : is_neg slot.socket ≡ not taken

module _ (minor : ℕ) (e : Driver) (b : minor < length e.ptys) (m : minor < max_ptys) where
  slot-Differs :
      {taken : Bool} {d : Driver} (h : Differs minor taken e d)
      → get_elem? d.ptys minor ≡ some h.slot
  slot-Differs h = rw h.same (get_elem?-set_self e.ptys minor h.slot b)

  put-Differs :
      {taken again : Bool} {d : Driver} (q : Pty)
      → Differs minor taken e d
      → is_neg q.socket ≡ not again
      → Differs minor again e (put minor q d)
  put-Differs q h s = record {
    slot = q;
    same = rw h.same (set-set e.ptys minor h.slot q);
    socket = s;
  }

  in_table : ltb minor max_ptys ≡ true
  in_table = ground (arith, m)

  -- Uses of the device leave its slot taken.
  read-Differs :
      (input : Input) {d : Driver}
      → Differs minor true e d
      → Differs minor true e (driver_of d (pty_poll_read input minor d))
  unfolding pty_poll_read
  read-Differs input {d} h = elim (Option-cases (read_pty input h.slot)) [
    | inl n ↦ rw (in_table, slot-Differs h, h.socket, n, pty_poll_read) h
    | inr (r, n) ↦
        rw (in_table, slot-Differs h, h.socket, n, pty_poll_read)
          (put-Differs r.pty h (ap is_neg (read_pty-socket input h.slot n) ∙ h.socket))
  ]

  use-Differs :
      (u : Use) {d : Driver} → Differs minor true e d → Differs minor true e (use_device minor u d)
  unfolding use_device pty_poll_write pty_set_attributes my_pty_control
  use-Differs (read_in input) h = read-Differs input h
  use-Differs (write_out count buf) h = rw (in_table, slot-Differs h, h.socket) h
  use-Differs (attributes cflag) h =
      rw (in_table, slot-Differs h) (put-Differs (record h.slot { c_cflag = cflag }) h h.socket)
  use-Differs (control other) h = h
  use-Differs (control tiocgwinsz) h = rw (slot-Differs h, my_pty_control) h
  use-Differs (control (tiocswinsz row col)) h =
      rw (slot-Differs h, my_pty_control)
        (put-Differs (record h.slot { height = row; width = col }) h h.socket)

  pub use_all-Differs :
      (us : List Use) {d : Driver}
      → Differs minor true e d
      → Differs minor true e (use_all minor us d)
  unfolding use_all
  use_all-Differs [] h = h
  use_all-Differs (u ∷ us) h = use_all-Differs us (use-Differs u h)

  attributes-Differs :
      (cflag : ℕ) {d : Driver}
      → Differs minor true e d
      → (o : Outcome) × (pty_set_attributes minor cflag d ≡ some o) × Differs minor true e o.driver
  unfolding pty_set_attributes
  attributes-Differs cflag {d} h =
      let q = record h.slot { c_cflag = cflag } in
      (
        outcome (pos 0) (put minor q d) [],
        rw (in_table, slot-Differs h, pty_set_attributes) refl,
        put-Differs q h h.socket,
      )

  -- The first open and the last close.
  pub initialize-Differs :
      (cflag : ℕ) (tty : TermiosTty) {d : Driver}
      → Differs minor true e d
      → (o : Outcome) × (pty_poll_initialize cflag minor tty d ≡ some o)
        × Differs minor true e o.driver
  unfolding pty_poll_initialize open_slot
  initialize-Differs cflag tty {d} h =
      let (o, q, g) = attributes-Differs cflag (put-Differs (open_slot tty h.slot) h h.socket) in
      (o, rw (in_table, slot-Differs h, h.socket, q, pty_poll_initialize) refl, g)

  pub shutdown-Differs :
      {d : Driver}
      → Differs minor true e d
      → (o : Outcome) × (pty_shutdown minor d ≡ some o) × Differs minor false e o.driver
  shutdown-Differs {d} h =
      let (o, q, c, x, calls, count) = pty_shutdown-frees d minor h.slot m (slot-Differs h) in
      (
        o,
        q,
        subst (Differs minor false e) (sym x)
            (put-Differs (record h.slot { opened = false; socket = minus_one }) h refl),
      )
