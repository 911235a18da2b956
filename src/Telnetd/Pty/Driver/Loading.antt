-- ===== src/Telnetd/Pty/Driver/Loading.antt =====
-- What loading and unloading the driver do to the table.
use rtems_ssrl_apps.Prelude.{
  ℕ, suc, ◌≡◌, refl, ◌∙◌, ap, ◌↔◌, ◌≢◌, inl, inr, Bool, true, false, none, some, List, [], ◌∷◌,
  arith, length, Option-cases,
}
use rtems_ssrl_apps.Prelude.Int.{pos}
use rtems_ssrl_apps.Telnetd.Pty.Slot.{Pty, max_ptys}
use rtems_ssrl_apps.Telnetd.Pty.Read.Bounds.{IsSound}
use rtems_ssrl_apps.Telnetd.Pty.Driver.{Driver, Outcome, outcome}
use rtems_ssrl_apps.Telnetd.Pty.Driver.Claims.{free_count}
use rtems_ssrl_apps.Telnetd.Pty.Driver.Setup.{
  init_slots, register_names, my_pty_initialize, any_opened, pty_do_finalize,
}
use rtems_ssrl_apps.Telnetd.Pty.Driver.Slots.{Slots, IsDriver}

abbrev pub AllSound : List Pty → Type 0
AllSound [] = Unit {0}
AllSound (p ∷ ps) = IsSound p × AllSound ps

init_slots_lem :
    (cflag k : ℕ) (ps : List Pty)
    → AllSound ps
    → Slots k (init_slots cflag k ps)
      × (length (init_slots cflag k ps) ≡ length ps)
      × (free_count (init_slots cflag k ps) ≡ length ps)
unfolding init_slots free_count
init_slots_lem cflag k [] h = (tt, refl, refl)
init_slots_lem cflag k (p ∷ ps) h =
    let (s, l, f) = init_slots_lem cflag (suc k) ps h.1 in
    let sound : IsSound p = h.0 in ((ground arith, s), ap suc l, omega (arith, f))

-- Where no name is refused, so is the table registered.
register_names_lem :
    (register : ℕ → Bool) (k : ℕ) (ps : List Pty)
    → ((n : ℕ) → register n ≡ true)
    → register_names register k ps ≢ none
unfolding register_names
register_names_lem register k [] all = λ e. cc
register_names_lem register k (p ∷ ps) all =
    ground (arith, register_names_lem register (suc k) ps all, all k)

-- The initialization of a table of five sound slots, all its names registered, succeeds and gives a
-- driver in which every slot is free and named after its place, whatever sockets the table held.
pub my_pty_initialize-IsDriver :
    (cflag : ℕ) (register : ℕ → Bool) (d : Driver)
    → ((n : ℕ) → register n ≡ true)
    → AllSound d.ptys
    → length d.ptys ≡ max_ptys
    → (o : Outcome) × (my_pty_initialize cflag register d ≡ some o)
      × (o.code ≡ pos 0)
      × IsDriver o.driver
      × (free_count o.driver.ptys ≡ max_ptys)
unfolding my_pty_initialize
my_pty_initialize-IsDriver cflag register d all sound five =
    let ps = init_slots cflag 0 d.ptys in
    let (s, l, f) = init_slots_lem cflag 0 d.ptys sound in
    elim (Option-cases (register_names register 0 ps)) [
      | inl refused ↦ absurd (register_names_lem register 0 ps all refused)
      | inr (cs, e) ↦ (
        outcome (pos 0) (record d { ptys = ps }) cs,
        rw (e, my_pty_initialize),
        refl,
        record { count = l ∙ five; slots = s },
        f ∙ five,
      )
    ]

-- A loaded driver is unloaded exactly if no slot is open and RTEMS takes the driver out; the slots
-- are as they were in any case, and the driver still counts as loaded if the result is not 0.
pub pty_do_finalize_lem :
    (unregistered : Bool) (d : Driver)
    → d.inited ≡ true
    → let o = pty_do_finalize unregistered d in
      ((o.code ≡ pos 0) ↔ ((any_opened d.ptys ≡ false) × (unregistered ≡ true)))
      × ((o.driver.inited ≡ false) ↔ (o.code ≡ pos 0))
      × (o.driver.ptys ≡ d.ptys)
unfolding pty_do_finalize
pty_do_finalize_lem unregistered d h = ground arith
