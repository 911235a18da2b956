-- ===== src/Tests/Commands.antt =====
-- Runs of the main program of the memory utilities.
use rtems_ssrl_apps.Prelude.{ℕ, ◌≡◌, refl, Option, none, List, [], ◌∷◌}
use rtems_ssrl_apps.MemUtils.{md}
use rtems_ssrl_apps.MemUtils.Commands.{dumped}
use rtems_ssrl_apps.MemUtils.Commands.Script.{Numeral, Entry, bare, sized, outcome}

abbrev hundred : Numeral
hundred = record { first = 1; others = 0 ∷ 0 ∷ [] }

abbrev two : Numeral
two = record { first = 2; others = [] }

-- "d 100 100 2", "d 100" and "q".
abbrev entries : List Entry
entries = sized hundred hundred two ∷ bare hundred ∷ []

abbrev no_number : List ℕ → Option ℕ
no_number text = none

-- The size of the first command is that of the second.
stale_size : outcome entries 0 ≡ dumped (md 100 100 2) ∷ dumped (md 100 16 2) ∷ []
stale_size = refl
