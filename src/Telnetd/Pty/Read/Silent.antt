-- ===== src/Telnetd/Pty/Read/Silent.antt =====
-- Streams of bytes that are telnet commands only, one byte at a time.
use rtems_ssrl_apps.Prelude.{ℕ, ◌≡◌, refl, List, [], ◌∷◌}
use rtems_ssrl_apps.Prelude.Int.{negsuc}
use rtems_ssrl_apps.Telnetd.Pty.Slot.{Pty}
use rtems_ssrl_apps.Telnetd.Pty.Read.{result, read_byte}
use rtems_ssrl_apps.Telnetd.Pty.Read.Stream.{final, delivered, replies}

-- A stream that gives the terminal nothing and the client no reply, and leads from `p` to `q`.
pub record Silent (vs : List ℕ) (p q : Pty) : Type 0 where
  pub nothing : delivered vs p ≡ []
  pub no_reply : replies vs p ≡ []
  pub leads : final vs p ≡ q

pub nil : (p : Pty) → Silent [] p p
unfolding delivered replies final
nil p = record { nothing = refl; no_reply = refl; leads = refl }

-- A byte that is no character, and what follows it.
pub cons :
    {v n : ℕ} {vs : List ℕ} {p q r : Pty}
    → read_byte v p ≡ result (negsuc n) q []
    → Silent vs q r
    → Silent (v ∷ vs) p r
unfolding delivered replies final
cons e s = record { nothing = rw e s.nothing; no_reply = rw e s.no_reply; leads = rw e s.leads }
