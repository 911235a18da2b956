-- ===== src/Tests/Spawn.antt =====
-- Runs of the tasks that call a function.
use rtems_ssrl_apps.Prelude.{ℕ, ◌≡◌, refl, Bool, true, some, ltb}
use rtems_ssrl_apps.Prelude.Int.{pos}
use rtems_ssrl_apps.Spawn.{Tasks}
use rtems_ssrl_apps.Spawn.Ownership.{calls_made}

-- The fourth deadline is missed.
abbrev three : ℕ → Bool
three n = ltb n 3

abbrev tasks : Tasks
tasks = record { created = some 7; started = true }

three_calls : calls_made true three (pos 10) ≡ 3
three_calls = refl
