-- ===== src/Telnetd/Pty/Read/Ready.antt =====
-- The slot between two commands, and the rewriting of a slot to a form that computes.
use rtems_ssrl_apps.Prelude.{ℕ, ◌≡◌, Bool, false, List, [], ◌∷◌, arith, length}
use rtems_ssrl_apps.Telnetd.Pty.Slot.{Pty, sb_max}

-- No command is open, the last byte was no CR, and the buffer has its size.
pub record IsReady (p : Pty) : Type 0 where
  pub no_command : p.iac_mode ≡ 0
  pub no_cr : p.last_cr ≡ false
  pub size : length p.sb_buf ≡ sb_max

-- A ready slot, its first five buffer bytes written out.
abbrev pub ready : Pty → ℕ → ℕ → ℕ → ℕ → ℕ → List ℕ → Pty
ready p a b c d e r = record p { iac_mode = 0; last_cr = false; sb_buf = a ∷ b ∷ c ∷ d ∷ e ∷ r }

-- What holds of every ready slot so written holds of every ready slot.
pub by_ready :
    (P : Pty → Type 0)
    → ((p : Pty) (a b c d e : ℕ) (r : List ℕ) → length r ≡ 11 → P (ready p a b c d e r))
    → (p : Pty) → IsReady p
    → P p
by_ready P f p h = go p.iac_mode p.last_cr p.sb_buf h.no_command h.no_cr h.size
  where
    go :
        (m : ℕ) (l : Bool) (xs : List ℕ)
        → m ≡ 0
        → l ≡ false
        → length xs ≡ 16
        → P (record p { iac_mode = m; last_cr = l; sb_buf = xs })
    go m l [] em el n = absurd (omega arith)
    go m l (a ∷ []) em el n = absurd (omega arith)
    go m l (a ∷ b ∷ []) em el n = absurd (omega arith)
    go m l (a ∷ b ∷ c ∷ []) em el n = absurd (omega arith)
    go m l (a ∷ b ∷ c ∷ d ∷ []) em el n = absurd (omega arith)
    go m l (a ∷ b ∷ c ∷ d ∷ e ∷ r) em el n = rw (em, el) (f p a b c d e r (omega arith))
