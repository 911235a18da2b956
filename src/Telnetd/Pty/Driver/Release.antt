-- ===== src/Telnetd/Pty/Driver/Release.antt =====
-- The close of a slot, and the number of free slots over the life of a connection.
use rtems_ssrl_apps.Prelude.{
  ℕ, zero, suc, ◌+◌, ◌<◌, ◌≡◌, refl, false, some, List, [], ◌∷◌, ◌++◌, arith, get_elem?, set,
  if◌then◌else◌,
}
use rtems_ssrl_apps.Prelude.Int.{pos, is_neg, minus_one}
use rtems_ssrl_apps.Telnetd.Pty.Slot.{Pty, max_ptys}
use rtems_ssrl_apps.Telnetd.Pty.Driver.{Driver, close, chown, Outcome, outcome, put, pty_shutdown}
use rtems_ssrl_apps.Telnetd.Pty.Driver.Claims.{free_count}

-- A slot counts as free if it has no socket.
abbrev pub one_if_free : Pty → ℕ
one_if_free p = if is_neg p.socket then 1 else 0

pub free_count-set :
    (ps : List Pty) (i : ℕ) (q : Pty) {p : Pty}
    → get_elem? ps i ≡ some p
    → free_count (set ps i q) + one_if_free p ≡ free_count ps + one_if_free q
unfolding free_count
free_count-set [] i q e = absurd (ground arith)
free_count-set (x ∷ ps) zero q e = ground arith
free_count-set (x ∷ ps) (suc i) q e = omega (arith, free_count-set ps i q e)

-- The close of a slot in the table closes its socket if it has one, gives the device back to its
-- owner, and leaves the slot free and shut; the other slots are as they were, and one more slot is
-- free unless this one was.
pub pty_shutdown-frees :
    (d : Driver) (minor : ℕ) (p : Pty)
    → minor < max_ptys
    → get_elem? d.ptys minor ≡ some p
    → (o : Outcome) × (pty_shutdown minor d ≡ some o)
      × (o.code ≡ pos 0)
      × (o.driver ≡ put minor (record p { opened = false; socket = minus_one }) d)
      × (o.calls
          ≡ (if is_neg p.socket then [] else close p.socket ∷ []) ++ chown p.devname 2 0 ∷ [])
      × (free_count o.driver.ptys + one_if_free p ≡ free_count d.ptys + 1)
unfolding pty_shutdown
pty_shutdown-frees d minor p h at =
    let q = record p { opened = false; socket = minus_one } in
    (
      outcome (pos 0) (put minor q d) _,
      ground arith,
      refl,
      refl,
      refl,
      free_count-set d.ptys minor q at,
    )
