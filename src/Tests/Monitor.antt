-- ===== src/Tests/Monitor.antt =====
-- Runs of the monitor.
use rtems_ssrl_apps.Prelude.{
  ℕ, ◌≤◌, ◌≡◌, refl, Bool, true, Option, none, some, List, [], ◌∷◌, codes, length,
}
use rtems_ssrl_apps.Monitor.{call, obtain, mark, System, pick, Reach, here, next}
use rtems_ssrl_apps.Monitor.Exclusion
use rtems_ssrl_apps.Monitor.Exclusion.{in_monitor, holds_mutex, mutual_exclusion, no_deadlock}
use rtems_ssrl_apps.Monitor.Session.{Line, called, visit}
use rtems_ssrl_apps.Monitor.Session.Commands.{Runs}

-- The task 0 has set the busy mark and holds the mutex, on which the task 1 waits.
contended :
    (s : System) × Reach s × (in_monitor (s.pc 0) ≡ true) × (Exclusion.waits (s.pc 1) ≡ true)
contended = (
  _,
  next (next (next (next here (pick 0 call)) (pick 0 (obtain refl))) (pick 0 (mark refl)))
      (pick 1 call),
  refl,
  refl,
)

mutual_exclusion_example : (◌≡◌ {A = ℕ} 0 0) × (contended.0.shared.task_id ≡ 1)
mutual_exclusion_example = mutual_exclusion contended.1 0 0 contended.2 contended.2

no_deadlock_example :
    (n : ℕ) × (t : System) × Exclusion.Runs n contended.0 t
    × (n ≤ 3)
    × (holds_mutex (t.pc 1) ≡ true)
no_deadlock_example = no_deadlock contended.1 1 contended.3

abbrev numbers : List ℕ → ℕ × Bool
numbers w = (length w, true)

abbrev table : List ℕ → Option ℕ
table (c ∷ cs) = some 0x4000
table [] = none

-- "threadStack 1", "quit" and a line behind.
abbrev lines : List Line
lines =
    record { words = codes "threadStack" ∷ codes "1" ∷ []; strdup = true }
    ∷ record { words = codes "quit" ∷ []; strdup = true }
    ∷ record { words = codes "threadStack" ∷ []; strdup = true }
    ∷ []

visit_result :
    visit numbers table true lines
    ≡ some (record {
      session_of = record { events = called 0x4000 1 ∷ []; strdups = 2; frees = 2 };
      editors_made = 1;
      editors_deleted = 1;
    })
unfolding visit
visit_result = refl
