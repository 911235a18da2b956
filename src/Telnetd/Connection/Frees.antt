-- ===== src/Telnetd/Connection/Frees.antt =====
-- Which slots a shell task of telnetd/telnetd.c leaves free.
use rtems_ssrl_apps.Prelude.{
  ℕ, zero, suc, ◌<◌, ◌≡◌, refl, sym, ap, ◌∙◌, Bool, true, false, not, ◌&&◌, some, List, [], ◌∷◌,
  ◌++◌, map, arith, get_elem?, set, length, Bool-cases, inl, inr,
}
use mathlib.Core.Path.{subst}
use rtems_ssrl_apps.Prelude.Int.{is_neg, is_nonzero}
use rtems_ssrl_apps.Telnetd.Passwd
use rtems_ssrl_apps.Telnetd.Passwd.{World, check_passwd}
use rtems_ssrl_apps.Telnetd.Pty.Slot.{Pty, max_ptys}
use rtems_ssrl_apps.Telnetd.Pty.Driver.{Driver}
use rtems_ssrl_apps.Telnetd.Pty.Driver.Slots.{get_elem?-bound}
use rtems_ssrl_apps.Telnetd.Daemon.{
  Event, fclose, shell, passwd, redirect, log_released, free_args, guarded_shell, spawned_shell,
}
use rtems_ssrl_apps.Telnetd.Connection.{Termios, Use, use_all, perform, perform_all}
use rtems_ssrl_apps.Telnetd.Connection.Differs.{
  Differs, set-get_elem?, use_all-Differs, initialize-Differs, shutdown-Differs,
}

not_involutive : (b : Bool) → not (not b) ≡ b
not_involutive b = ground arith

module _ (minor : ℕ) (e : Driver) (b : minor < length e.ptys) (m : minor < max_ptys) where
  abbrev is_open : ℕ → Bool
  is_open zero = false
  is_open (suc n) = true

  module _ (t : Termios minor) (uses : Event → List Use) where
    -- The device is open `n` times, and its slot taken or not.
    record Stands (n : ℕ) (taken : Bool) (c : t.State × Driver) : Type 0 where
      pub opens : t.opens c.0 ≡ n
      pub driver : Differs minor taken e c.1

    open-Stands :
        (n : ℕ) (s : t.State) (d : Driver)
        → Stands n true (s, d)
        → Stands (suc n) true (t.open_device s d)
    open-Stands zero s d h =
        let (o, q, g) = initialize-Differs minor e b m t.b9600_cs8 t.tty h.driver in
        record {
          opens = t.opens-open s d ∙ ap suc h.opens;
          driver = subst (Differs minor true e) (sym (t.open_first s d o h.opens q)) g;
        }
    open-Stands (suc n) s d h = record {
      opens = t.opens-open s d ∙ ap suc h.opens;
      driver = subst (Differs minor true e) (sym (t.open_again s d n h.opens)) h.driver;
    }

    close-Stands :
        (n : ℕ) (s : t.State) (d : Driver)
        → Stands (suc n) true (s, d)
        → Stands n (is_open n) (t.close_device s d)
    close-Stands zero s d h =
        let (o, q, g) = shutdown-Differs minor e b m h.driver in
        record {
          opens = t.opens-close s d 0 h.opens;
          driver = subst (Differs minor false e) (sym (t.close_last s d o h.opens q)) g;
        }
    close-Stands (suc n) s d h = record {
      opens = t.opens-close s d (suc n) h.opens;
      driver = subst (Differs minor true e) (sym (t.close_before s d n h.opens)) h.driver;
    }

    perform_all-append :
        (xs ys : List Event) (c : t.State × Driver)
        → perform_all t uses (xs ++ ys) c ≡ perform_all t uses ys (perform_all t uses xs c)
    unfolding perform_all
    perform_all-append [] ys c = refl
    perform_all-append (x ∷ xs) ys c = perform_all-append xs ys (perform t uses x c)

    used-Stands :
        (us : List Use) {n : ℕ} {s : t.State} {d : Driver}
        → Stands n true (s, d)
        → Stands n true (s, use_all minor us d)
    used-Stands us h = record { opens = h.opens; driver = use_all-Differs minor e b m us h.driver }

    passwd-Stands :
        (ps : List Passwd.Event) {n : ℕ} (c : t.State × Driver)
        → Stands n true c
        → Stands n true (perform_all t uses (map passwd ps) c)
    unfolding perform_all
    passwd-Stands [] c h = h
    passwd-Stands (p ∷ ps) c h = passwd-Stands ps _ (used-Stands (uses (passwd p)) h)

    module _ (crypt : List ℕ → List ℕ → List ℕ) where
      guarded-Stands :
          (w : World) (name : List ℕ) {n : ℕ} (c : t.State × Driver)
          → Stands n true c
          → Stands n true (perform_all t uses (guarded_shell crypt w name) c)
      unfolding guarded_shell perform_all
      guarded-Stands w name {n} c h =
          let (rval, ps) = check_passwd crypt w in
          let after = perform_all t uses (map passwd ps) c in
          let g : Stands n true after = passwd-Stands ps c h in
          elim (Bool-cases (is_nonzero rval)) [
            | inl x ↦ rw (x, perform_all-append (map passwd ps) [] c) g
            | inr x ↦
                rw (x, perform_all-append (map passwd ps) (shell name ∷ []) c)
                  (used-Stands (uses (shell name)) g)
          ]

      -- The end of a task that ran on three streams.
      closing-Stands :
          (xs : List Event) (name peer : List ℕ) (c : t.State × Driver)
          → Stands 3 true (perform_all t uses xs c)
          → Stands 0 false (
              perform_all t uses
                (xs
                  ++ redirect false ∷ []
                  ++ log_released peer name ∷ fclose 2 ∷ fclose 1 ∷ fclose 0 ∷ free_args ∷ [])
                c)
      unfolding perform_all
      closing-Stands xs name peer c h =
          let ends = log_released peer name ∷ fclose 2 ∷ fclose 1 ∷ fclose 0 ∷ free_args ∷ [] in
          rw
            (
              perform_all-append (xs ++ redirect false ∷ []) ends c,
              perform_all-append xs (redirect false ∷ []) c,
            )
            (close-Stands 0 _ _ (close-Stands 1 _ _ (close-Stands 2 _ _ h)))

      -- The streams that are open are closed.
      shell-Stands :
          (env : Bool) (opens : ℕ → Bool) (w : World) (name peer : List ℕ) (s : t.State)
          (d : Driver)
          → Stands 0 true (s, d)
          → Stands 0
              (not (env && opens 0))
              (perform_all t uses (spawned_shell crypt env opens w name peer) (s, d))
      unfolding spawned_shell perform_all
      shell-Stands false opens w name peer s d h = h
      shell-Stands true opens w name peer s d h = elim (Bool-cases (opens 0)) [
        | inr e0 ↦ rw e0 h
        | inl e0 ↦ elim (Bool-cases (opens 1)) [
          | inr e1 ↦ rw (e0, e1) (rw e0 (close-Stands 0 _ _ (open-Stands 0 s d h)))
          | inl e1 ↦ elim (Bool-cases (opens 2)) [
            | inr e2 ↦
                rw (e0, e1, e2)
                  (rw (e0, e1)
                    (close-Stands 0 _ _
                      (close-Stands 1 _ _ (open-Stands 1 _ _ (open-Stands 0 s d h)))))
            | inl e2 ↦
                rw (e0, e1, e2)
                  (rw (e0, e1, e2)
                    (closing-Stands (guarded_shell crypt w name) name peer _ (
                      guarded-Stands w name _
                        (open-Stands 2 _ _ (open-Stands 1 _ _ (open-Stands 0 s d h))))))
          ]
        ]
      ]

-- With the slot of a connection taken and its device not open, a shell task leaves the slot free exactly
-- if the private environment is there and the first open of the device succeeds, whatever the shell and
-- the password check do with the device and whatever else fails; it leaves the device not open and
-- touches no other slot.
pub spawned_shell-Frees :
    {minor : ℕ} (t : Termios minor) (uses : Event → List Use) (crypt : List ℕ → List ℕ → List ℕ)
    (env : Bool) (opens : ℕ → Bool) (w : World) (name peer : List ℕ) (s : t.State) (d : Driver)
    {p : Pty}
    → minor < max_ptys
    → get_elem? d.ptys minor ≡ some p
    → is_neg p.socket ≡ false
    → t.opens s ≡ 0
    → let (s', d') = perform_all t uses (spawned_shell crypt env opens w name peer) (s, d) in
      (t.opens s' ≡ 0)
      × ((q : Pty) × (d'.ptys ≡ set d.ptys minor q) × (is_neg q.socket ≡ (env && opens 0)))
spawned_shell-Frees {minor} t uses crypt env opens w name peer s d {p} m at live none_open =
    let start : Differs minor true d d = record {
      slot = p;
      same = sym (set-get_elem? d.ptys minor at);
      socket = live;
    } in
    let b = get_elem?-bound d.ptys minor at in
    let h =
      shell-Stands minor d b m t uses crypt env opens w name peer s d
        (record { opens = none_open; driver = start }) in
    (h.opens, (h.driver.slot, h.driver.same, h.driver.socket ∙ not_involutive (env && opens 0)))
