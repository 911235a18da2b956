-- ===== src/Telnetd/Pty/Read/Stream.antt =====
-- A stream of bytes that the telnet client sends, read one by one: what termios gets when it polls.
use rtems_ssrl_apps.Prelude.{ℕ, ◌≡◌, refl, List, [], ◌∷◌, ◌++◌}
use mathlib.Core.List.{append_assoc}
use rtems_ssrl_apps.Prelude.Int.{ℤ, pos, negsuc}
use rtems_ssrl_apps.Telnetd.Pty.Slot.{Pty}
use rtems_ssrl_apps.Telnetd.Pty.Read.{read_byte}

-- A code of 0 or more is a character for the terminal; a negative one is no input.
abbrev pub chars : ℤ → List ℕ
chars (pos c) = c ∷ []
chars (negsuc _) = []

unfoldable pub final : List ℕ → Pty → Pty
final [] p = p
final (v ∷ vs) p = final vs (read_byte v p).pty

unfoldable pub delivered : List ℕ → Pty → List ℕ
delivered [] p = []
delivered (v ∷ vs) p = chars (read_byte v p).code ++ delivered vs (read_byte v p).pty

unfoldable pub replies : List ℕ → Pty → List (List ℕ)
replies [] p = []
replies (v ∷ vs) p = (read_byte v p).sent ++ replies vs (read_byte v p).pty

pub final-append : (xs ys : List ℕ) (p : Pty) → final (xs ++ ys) p ≡ final ys (final xs p)
unfolding final
final-append [] ys p = refl
final-append (x ∷ xs) ys p = final-append xs ys (read_byte x p).pty

pub delivered-append :
    (xs ys : List ℕ) (p : Pty)
    → delivered (xs ++ ys) p ≡ delivered xs p ++ delivered ys (final xs p)
unfolding delivered final
delivered-append [] ys p = refl
delivered-append (x ∷ xs) ys p = rw (delivered-append xs ys (read_byte x p).pty, append_assoc)

pub replies-append :
    (xs ys : List ℕ) (p : Pty) → replies (xs ++ ys) p ≡ replies xs p ++ replies ys (final xs p)
unfolding replies final
replies-append [] ys p = refl
replies-append (x ∷ xs) ys p = rw (replies-append xs ys (read_byte x p).pty, append_assoc)
