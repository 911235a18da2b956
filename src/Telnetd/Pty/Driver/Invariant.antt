-- ===== src/Telnetd/Pty/Driver/Invariant.antt =====
-- Each call of the driver keeps what holds of its slots.
use rtems_ssrl_apps.Prelude.{
  ℕ, suc, ◌<◌, ◌≡◌, refl, false, inl, inr, Option, none, some, List, arith, length, get_elem?,
  length-set, Bool-cases, Option-cases, ◌∙◌, sym, ap, ltb,
}
use mathlib.Core.Path.{subst}
use rtems_ssrl_apps.Prelude.Int.{ℤ, pos, is_neg, minus_one}
use rtems_ssrl_apps.Telnetd.Pty.Slot.{TermiosTty, Pty, max_ptys}
use rtems_ssrl_apps.Telnetd.Pty.Read.{Input, failed, eof, byte, Result, read_pty}
use rtems_ssrl_apps.Telnetd.Pty.Read.Bounds.{read_byte-IsSound}
use rtems_ssrl_apps.Telnetd.Pty.Read.Frame.{read_byte-Framed}
use rtems_ssrl_apps.Telnetd.Pty.Driver.{
  Driver, Call, Outcome, on_slot, put, pty_set_attributes, pty_poll_initialize, pty_shutdown,
  pty_poll_write, pty_poll_read, Control, tiocgwinsz, tiocswinsz, other, Reply, my_pty_control,
}
use rtems_ssrl_apps.Telnetd.Pty.Driver.Claims.{Claimed, Granted}
use rtems_ssrl_apps.Telnetd.Pty.Driver.Slots.{IsSlot, Slots, IsDriver, IsSlot-at, Slots-set}

-- Bytes are below 256, the fields of a `struct winsize` below 65536.
abbrev pub IsInput : Input → Type 0
IsInput (byte v) = v < 256
IsInput failed = Unit {0}
IsInput eof = Unit {0}

abbrev pub IsControl : Control → Type 0
IsControl (tiocswinsz row col) = (row < 65536) × (col < 65536)
IsControl tiocgwinsz = Unit {0}
IsControl other = Unit {0}

read_pty-IsSlot :
    (input : Input) (k : ℕ) {p : Pty} {r : Result}
    → IsInput input
    → IsSlot k p
    → read_pty input p ≡ some r
    → IsSlot k r.pty
unfolding read_pty
read_pty-IsSlot failed k h s e = ground arith
read_pty-IsSlot eof k h s e = ground arith
read_pty-IsSlot (byte v) k {p} h s e =
    ground (arith, read_byte-Framed v p, read_byte-IsSound v p h s.sound)

-- The table with one slot given anew.
put-IsDriver : (d : Driver) (i : ℕ) (q : Pty) → IsDriver d → IsSlot i q → IsDriver (put i q d)
put-IsDriver d i q h s = record {
  count = length-set d.ptys i q ∙ h.count;
  slots = Slots-set d.ptys i 0 q h.slots (subst (λ n. IsSlot n q) (omega arith) s);
}

-- The driver that a call leaves, if it leaves one.
abbrev pub Keeps : Option Outcome → Type 0
Keeps none = Unit {0}
Keeps (some o) = IsDriver o.driver

-- A call that goes to one slot keeps the invariant if it does so at every sound slot.
on_slot-Keeps :
    (minor : ℕ) (d : Driver) (k : Pty → Option Outcome)
    → IsDriver d
    → ((p : Pty) → IsSlot minor p → Keeps (k p))
    → Keeps (on_slot minor d k)
on_slot-Keeps minor d k h keep = elim (Bool-cases (ltb minor max_ptys)) [
  | inr out ↦ rw out h
  | inl in_range ↦ rw in_range (elim (Option-cases (get_elem? d.ptys minor)) [
    | inl absent ↦ rw absent tt
    | inr (p, at) ↦ rw at (keep p (IsSlot-at d minor h at))
  ])
]

Claimed-Slots :
    (n : ℕ) {name : List ℕ} (k : ℕ) {ps qs : List Pty}
    → Claimed (pos n) name ps qs
    → Slots k ps
    → Slots k qs × (length qs ≡ length ps)
Claimed-Slots n k (Claimed.here {p} e d) s = (((ground arith), s.1), refl)
Claimed-Slots n k (Claimed.there e c) s =
    let (t, l) = Claimed-Slots n (suc k) c s.1 in ((s.0, t), ap suc l)

pub Granted-IsDriver :
    (n : ℕ) (d : Driver) (r : Option (List ℕ) × Driver × List Call)
    → IsDriver d
    → Granted (pos n) d r
    → IsDriver r.1
Granted-IsDriver n d (none, d', cs) h g = subst IsDriver (sym g.0) h
Granted-IsDriver n d (some name, d', cs) h g =
    let (t, l) = Claimed-Slots n 0 g.0 h.slots in record { count = l ∙ h.count; slots = t }

module _ (d : Driver) (h : IsDriver d) where
  pub attributes-Keeps : (minor cflag : ℕ) → Keeps (pty_set_attributes minor cflag d)
  unfolding pty_set_attributes
  attributes-Keeps minor cflag =
      on_slot-Keeps minor d _ h
        λ p s. put-IsDriver d minor (record p { c_cflag = cflag }) h (ground arith)

  pub shutdown-Keeps : (minor : ℕ) → Keeps (pty_shutdown minor d)
  unfolding pty_shutdown
  shutdown-Keeps minor =
      on_slot-Keeps minor d _ h λ p s.
        put-IsDriver d minor (record p { opened = false; socket = minus_one }) h (ground arith)

  pub write-Keeps :
      (count : ℤ) (minor : ℕ) (buf : List ℕ) → Keeps (pty_poll_write count minor buf d)
  unfolding pty_poll_write
  write-Keeps count minor buf =
      on_slot-Keeps minor d _ h
        λ p s. elim (Bool-cases (is_neg p.socket)) [ inl e ↦ rw e h | inr e ↦ rw e h ]

  pub read-Keeps : (input : Input) (minor : ℕ) → IsInput input → Keeps (pty_poll_read input minor d)
  unfolding pty_poll_read
  read-Keeps input minor i = on_slot-Keeps minor d _ h λ p s. elim (Bool-cases (is_neg p.socket)) [
    | inl e ↦ rw e h
    | inr e ↦ rw e (elim (Option-cases (read_pty input p)) [
      | inl fault ↦ rw fault tt
      | inr (r, got) ↦ rw got (put-IsDriver d minor r.pty h (read_pty-IsSlot input minor i s got))
    ])
  ]

-- `ptyPollInitialize` writes the slot, then lets `ptySetAttributes` write it again.
pub open-Keeps :
    (d : Driver) (cflag minor : ℕ) (tty : TermiosTty)
    → IsDriver d
    → Keeps (pty_poll_initialize cflag minor tty d)
unfolding pty_poll_initialize
open-Keeps d cflag minor tty h = on_slot-Keeps minor d _ h λ p s.
    elim (Bool-cases (is_neg p.socket)) [
      | inl e ↦ rw e h
      | inr e ↦ rw e (attributes-Keeps _ (put-IsDriver d minor _ h (ground arith)) minor cflag)
    ]

abbrev pub KeepsReply : Option (Reply × Driver) → Type 0
KeepsReply none = Unit {0}
KeepsReply (some (_, d)) = IsDriver d

pub control-Keeps :
    (d : Driver) (c : Control) (minor : ℕ)
    → IsControl c
    → IsDriver d
    → KeepsReply (my_pty_control c minor d)
unfolding my_pty_control
control-Keeps d other minor i h = h
control-Keeps d tiocgwinsz minor i h = elim (Option-cases (get_elem? d.ptys minor)) [
  | inl absent ↦ rw (absent, KeepsReply) tt
  | inr (p, at) ↦ rw (at, KeepsReply) h
]
control-Keeps d (tiocswinsz row col) minor i h = elim (Option-cases (get_elem? d.ptys minor)) [
  | inl absent ↦ rw (absent, KeepsReply) tt
  | inr (p, at) ↦
      let s : IsSlot minor p = IsSlot-at d minor h at in
      rw (at, KeepsReply)
        (put-IsDriver d minor (record p { height = row; width = col }) h (ground arith))
]
