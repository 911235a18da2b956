-- ===== src/Telnetd/Pty/Driver/Slots.antt =====
-- What holds of every slot of the table between two calls, and of the table as it is read and written.
use rtems_ssrl_apps.Prelude.{
  ℕ, zero, suc, ◌+◌, ◌<◌, ◌≡◌, true, false, some, List, [], ◌∷◌, arith, length, get_elem?, set,
  is_some,
}
use mathlib.Core.Path.{subst, subst₂}
use rtems_ssrl_apps.Prelude.Int.{is_neg}
use rtems_ssrl_apps.Telnetd.Pty.Slot.{Pty, max_ptys}
use rtems_ssrl_apps.Telnetd.Pty.Read.Bounds.{IsSound}
use rtems_ssrl_apps.Telnetd.Pty.Driver.{Driver}
use rtems_ssrl_apps.Telnetd.Pty.Driver.Setup.{device_name}

-- The slot of `/dev/ptyk`: an open one has a socket and a termios structure.
pub record IsSlot (k : ℕ) (p : Pty) : Type 0 where
  pub sound : IsSound p
  pub live : p.opened ≡ true → (is_neg p.socket ≡ false) × (is_some p.ttyp ≡ true)
  pub name : p.devname ≡ device_name k

abbrev pub Slots : ℕ → List Pty → Type 0
Slots k [] = Unit {0}
Slots k (p ∷ ps) = IsSlot k p × Slots (suc k) ps

pub record IsDriver (d : Driver) : Type 0 where
  pub count : length d.ptys ≡ max_ptys
  pub slots : Slots 0 d.ptys

Slots-get :
    (ps : List Pty) (i k : ℕ) {p : Pty} → Slots k ps → get_elem? ps i ≡ some p → IsSlot (i + k) p
Slots-get [] i k s e = absurd (ground arith)
Slots-get (q ∷ ps) zero k {p} s e = let same : q ≡ p = cc in subst₂ IsSlot (omega arith) same s.0
Slots-get (q ∷ ps) (suc i) k {p} s e =
    subst (λ n. IsSlot n p) (omega arith) (Slots-get ps i (suc k) s.1 e)

pub Slots-set :
    (ps : List Pty) (i k : ℕ) (q : Pty) → Slots k ps → IsSlot (i + k) q → Slots k (set ps i q)
Slots-set [] i k q s h = tt
Slots-set (p ∷ ps) zero k q s h = (subst (λ n. IsSlot n q) (omega arith) h, s.1)
Slots-set (p ∷ ps) (suc i) k q s h =
    (s.0, Slots-set ps i (suc k) q s.1 (subst (λ n. IsSlot n q) (omega arith) h))

pub get_elem?-bound : (ps : List Pty) (i : ℕ) {p : Pty} → get_elem? ps i ≡ some p → i < length ps
get_elem?-bound [] i e = absurd (ground arith)
get_elem?-bound (p ∷ ps) zero e = omega arith
get_elem?-bound (p ∷ ps) (suc i) e = omega (arith, get_elem?-bound ps i e)

-- The slot at a place of the table.
pub IsSlot-at :
    (d : Driver) (i : ℕ) {p : Pty} → IsDriver d → get_elem? d.ptys i ≡ some p → IsSlot i p
IsSlot-at d i {p} h e = subst (λ n. IsSlot n p) (omega arith) (Slots-get d.ptys i 0 h.slots e)
