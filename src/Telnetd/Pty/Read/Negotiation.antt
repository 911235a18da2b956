-- ===== src/Telnetd/Pty/Read/Negotiation.antt =====
-- Option negotiation: the three-byte commands WILL, WONT, DO and DONT.
use rtems_ssrl_apps.Prelude.{ℕ, ◌≡◌, refl, List, [], ◌∷◌}
use mathlib.Core.List.{append-nil}
use rtems_ssrl_apps.Telnetd.Pty.Slot.{Pty, iac_esc, iac_will, iac_wont, iac_do, iac_dont}
use rtems_ssrl_apps.Telnetd.Pty.Read.{after_will, after_do, after_wont, read_byte}
use rtems_ssrl_apps.Telnetd.Pty.Read.Stream.{final, delivered, replies}
use rtems_ssrl_apps.Telnetd.Pty.Read.Ready.{IsReady, by_ready}

pub data Verb : Type 0 where
  will wont do_it dont : Verb

abbrev pub verb_byte : Verb → ℕ
verb_byte will = iac_will
verb_byte wont = iac_wont
verb_byte do_it = iac_do
verb_byte dont = iac_dont

abbrev pub negotiate : Verb → ℕ → List ℕ
negotiate v o = iac_esc ∷ verb_byte v ∷ o ∷ []

-- What the server answers to a verb and an option.
unfoldable pub answer : Verb → ℕ → List (List ℕ)
unfolding after_will after_wont after_do
answer will o = after_will o
answer wont o = after_wont o
answer do_it o = after_do o
answer dont o = []

abbrev Negotiated : Verb → ℕ → Pty → Type 0
Negotiated v o p =
    (delivered (negotiate v o) p ≡ [])
    × (replies (negotiate v o) p ≡ answer v o)
    × (final (negotiate v o) p ≡ p)

-- A verb with its option is answered as the table says, whatever the option; the terminal gets
-- nothing and the slot is as it was.
pub negotiate-answer : (v : Verb) (o : ℕ) (p : Pty) → IsReady p → Negotiated v o p
unfolding delivered replies final read_byte answer
negotiate-answer will o =
    by_ready (Negotiated will o) λ p a b c d e r n. (refl, append-nil (after_will o), refl)
negotiate-answer wont o =
    by_ready (Negotiated wont o) λ p a b c d e r n. (refl, append-nil (after_wont o), refl)
negotiate-answer do_it o =
    by_ready (Negotiated do_it o) λ p a b c d e r n. (refl, append-nil (after_do o), refl)
negotiate-answer dont o = by_ready (Negotiated dont o) λ p a b c d e r n. (refl, refl, refl)
