-- ===== src/Tests/PtyRead.antt =====
-- Runs of the telnet machine.
use rtems_ssrl_apps.Prelude.{ℕ, ◌≡◌, refl, List, [], ◌∷◌, arith}
use rtems_ssrl_apps.Telnetd.Pty.Read.{read_byte}
use rtems_ssrl_apps.Telnetd.Pty.Read.Bounds.{IsSound, final-IsSound}
use rtems_ssrl_apps.Telnetd.Pty.Read.Escape.{encode, idle, delivered-encode}
use rtems_ssrl_apps.Telnetd.Pty.Read.Negotiation.{will, answer}
use rtems_ssrl_apps.Telnetd.Pty.Read.Session.{
  Item, type_in, ask, resize, answers, Means, session-Means,
}
use rtems_ssrl_apps.Telnetd.Pty.Read.Stream.{final, delivered, replies}
use rtems_ssrl_apps.Tests.Samples.{open_pty}

-- WILL NAWS, the size 132 by 50, and "ls" with a line end.
abbrev login : List Item
login = ask will 31 ∷ resize 0 132 0 50 ∷ type_in (b'l' ∷ b's' ∷ 13 ∷ []) ∷ []

session-Means_example : Means login open_pty
session-Means_example =
    session-Means login open_pty (omega arith)
      (record { no_command = refl; no_cr = refl; size = refl })

login_answer : answers login ≡ (255 ∷ 253 ∷ 31 ∷ []) ∷ []
unfolding answer
login_answer = refl

delivered-encode_example :
    (delivered (encode (255 ∷ 13 ∷ 0 ∷ 65 ∷ [])) (idle open_pty) ≡ 255 ∷ 13 ∷ 0 ∷ 65 ∷ [])
    × (replies (encode (255 ∷ 13 ∷ 0 ∷ 65 ∷ [])) (idle open_pty) ≡ [])
    × (final (encode (255 ∷ 13 ∷ 0 ∷ 65 ∷ [])) (idle open_pty) ≡ idle open_pty)
delivered-encode_example = delivered-encode (255 ∷ 13 ∷ 0 ∷ 65 ∷ []) open_pty

-- A subnegotiation of 20 bytes, more than the buffer holds.
abbrev flood : List ℕ
flood =
    255 ∷ 250 ∷ 1 ∷ 2 ∷ 3 ∷ 4 ∷ 5 ∷ 6 ∷ 7 ∷ 8 ∷ 9 ∷ 10 ∷ 11 ∷ 12 ∷ 13 ∷ 14 ∷ 15 ∷ 16 ∷ 17 ∷ 18 ∷ 19
    ∷ 20 ∷ []

final-IsSound_example : IsSound (final flood open_pty)
final-IsSound_example = final-IsSound flood open_pty (omega arith) (ground arith)

flood_stops : (final flood open_pty).sb_ind ≡ 16
unfolding final read_byte
flood_stops = refl
