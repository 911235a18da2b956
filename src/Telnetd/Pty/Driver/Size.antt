-- ===== src/Telnetd/Pty/Driver/Size.antt =====
-- The window size through the ioctls, and what a new connection inherits from the last one.
use rtems_ssrl_apps.Prelude.{
  ℕ, zero, suc, ◌<◌, ◌≡◌, refl, true, false, some, List, [], ◌∷◌, arith, get_elem?, set,
}
use rtems_ssrl_apps.Prelude.Int.{pos, is_neg, minus_one}
use rtems_ssrl_apps.Telnetd.Pty.Slot.{TermiosTty, Pty, max_ptys}
use rtems_ssrl_apps.Telnetd.Pty.Read.{read_byte}
use rtems_ssrl_apps.Telnetd.Pty.Driver.{
  Driver, Outcome, outcome, open_slot, pty_poll_initialize, tiocgwinsz, tiocswinsz, winsize,
  successful, my_pty_control, put,
}

get_elem?-set_at :
    (ps : List Pty) (i : ℕ) (q : Pty) {p : Pty}
    → get_elem? ps i ≡ some p
    → get_elem? (set ps i q) i ≡ some q
get_elem?-set_at [] i q e = absurd (ground arith)
get_elem?-set_at (x ∷ ps) zero q e = refl
get_elem?-set_at (x ∷ ps) (suc i) q e = get_elem?-set_at ps i q e

-- What TIOCSWINSZ stores, TIOCGWINSZ gives back, if it fits the 16-bit fields of a winsize.
pub tiocgwinsz-tiocswinsz :
    (d : Driver) (minor row col : ℕ) (p : Pty)
    → get_elem? d.ptys minor ≡ some p
    → row < 65536
    → col < 65536
    → (d' : Driver) × (my_pty_control (tiocswinsz row col) minor d ≡ some (successful, d'))
      × (my_pty_control tiocgwinsz minor d' ≡ some (winsize row col, d'))
unfolding my_pty_control
tiocgwinsz-tiocswinsz d minor row col p at r c =
    let q = record p { height = row; width = col } in
    (put minor q d, rw (at, my_pty_control), ground (arith, get_elem?-set_at d.ptys minor q at))

-- The open of a claimed slot keeps `last_cr`, so that after a connection that ended behind a CR the
-- first byte of the next one is dropped if it is a NUL.
pub open-stale_cr :
    (cflag minor : ℕ) (tty : TermiosTty) (d : Driver) (p : Pty)
    → minor < max_ptys
    → get_elem? d.ptys minor ≡ some p
    → is_neg p.socket ≡ false
    → p.last_cr ≡ true
    → (o : Outcome) × (q : Pty) × (pty_poll_initialize cflag minor tty d ≡ some o)
      × (get_elem? o.driver.ptys minor ≡ some q)
      × (q.iac_mode ≡ 0)
      × ((read_byte 0 q).code ≡ minus_one)
unfolding pty_poll_initialize read_byte
open-stale_cr cflag minor tty d p m at s cr =
    let q1 = open_slot tty p in
    let q = record q1 { c_cflag = cflag } in
    let d1 = put minor q1 d in
    let again = get_elem?-set_at d.ptys minor q1 at in
    (
      outcome (pos 0) (put minor q d1) [],
      q,
      ground (arith, again),
      get_elem?-set_at (set d.ptys minor q1) minor q again,
      refl,
      rw cr,
    )
