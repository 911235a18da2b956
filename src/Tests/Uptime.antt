-- ===== src/Tests/Uptime.antt =====
-- Runs of miscUtils/task_uptime.c, with natural numbers for `double`.
use rtems_ssrl_apps.Prelude.{ℕ, ◌+◌, ◌-◌, ◌*◌, ◌/◌, ◌≡◌, ◌==◌, none, some, List, [], ◌∷◌, refl}
use rtems_ssrl_apps.Prelude.Int.{ℤ, pos, negsuc}
use rtems_ssrl_apps.Uptime.{
  Timespec, Double, caller, Store, Sample, percentage, seconds, miscu_cpu_load_percentage,
}
use rtems_ssrl_apps.Uptime.Window.{calls, miscu_cpu_load_percentage-Window}

abbrev magnitude : ℤ → ℕ
magnitude (pos n) = n
magnitude (negsuc n) = 0

abbrev naturals : Double ℕ
naturals = record {
  of_int = magnitude;
  nano = 0;
  nan = 1000;
  add = λ a b. a + b;
  sub = λ a b. a - b;
  mul = λ a b. a * b;
  div = λ a b. a / b;
  equal = λ a b. a == b;
}

abbrev at_second : ℕ → Timespec
at_second n = record { tv_sec = pos n; tv_nsec = pos 0 }

abbrev subtract : Timespec → Timespec → Timespec
subtract a b = at_second (magnitude b.tv_sec - magnitude a.tv_sec)

abbrev boot : Store
boot c = at_second 0

-- Two readings, and between them one when the clock has not moved and one without the clock.
abbrev reading : ℕ → ℕ → Sample
reading u i = record { uptime = some (at_second u); idle = some (at_second i) }

abbrev between : List Sample
between = reading 10 5 ∷ record { uptime = none; idle = some (at_second 7) } ∷ []

miscu_cpu_load_percentage-Window_example :
    let up = some (caller 1) in
    let first = (miscu_cpu_load_percentage naturals subtract up none (reading 10 4) boot).1 in
    ((miscu_cpu_load_percentage naturals subtract up none
        (reading 20 12)
        (calls naturals subtract up none between first)).0
      ≡ percentage naturals
          (seconds naturals (subtract (at_second 10) (at_second 20)))
          (seconds naturals (subtract (at_second 4) (at_second 12))))
    × (calls naturals subtract up none between first ≡ first)
unfolding seconds
miscu_cpu_load_percentage-Window_example =
    miscu_cpu_load_percentage-Window naturals subtract (some (caller 1)) none boot (reading 10 4)
      (reading 20 12) between (at_second 10) (at_second 4) (at_second 20) (at_second 12) refl refl
      refl refl refl refl refl refl
