-- ===== src/Monitor.antt =====
-- `rtemsMonitor` of monitor/call.cc, as any number of tasks call it at once: the steps by which a task
-- takes and gives back the monitor, each an access to `monitorMutex` or `rtems_monitor_task_id`.
pub mod Exclusion
pub mod Registry
pub mod Reports
pub mod Session
use rtems_ssrl_apps.Prelude.{ℕ, zero, suc, ◌≡◌, ◌≢◌, Bool, true, false, ◌==◌, if◌then◌else◌}
use rtems_ssrl_apps.Prelude.Int.{ℤ, pos, minus_one}

-- Where a task stands in `rtemsMonitor`.
pub data Pc : Type 0 where
  outside : Pc  -- not in a call
  entering : Pc  -- before the first `rtems_semaphore_obtain`
  testing : Pc  -- before `if (rtems_monitor_task_id)`
  refused : Pc  -- before the release in that branch
  claimed : Pc  -- behind `rtems_task_ident`
  session : Pc  -- from the first release to `cleanup:`
  leaving : Pc  -- before the obtain behind `cleanup:`
  clearing : Pc  -- before `rtems_monitor_task_id=0`
  cleared : Pc  -- before the last release

-- The value of the mutex and of `rtems_monitor_task_id`: 0, or the task `i` as `suc i`.
pub record Shared : Type 0 where
  pub mutex : ℕ
  pub task_id : ℕ

-- A step of the task `i`, with the value that the call returns where it ends the call.
pub data Move (i : ℕ) (m : Shared) : Pc → Shared → Pc → Type 0 where
  call : Move i m outside m entering
  obtain : m.mutex ≡ 0 → Move i m entering (record m { mutex = suc i }) testing
  busy : m.task_id ≢ 0 → Move i m testing m refused
  refuse : Move i m refused (record m { mutex = 0 }) outside
  mark : m.task_id ≡ 0 → Move i m testing (record m { task_id = suc i }) claimed
  start : Move i m claimed (record m { mutex = 0 }) session
  finish : Move i m session m leaving
  obtain_again : m.mutex ≡ 0 → Move i m leaving (record m { mutex = suc i }) clearing
  clear : Move i m clearing (record m { task_id = 0 }) cleared
  release : Move i m cleared (record m { mutex = 0 }) outside

-- The value returned by the step that ends a call.
abbrev pub returned : {i : ℕ} {m n : Shared} {p q : Pc} → Move i m p n q → ℤ
returned refuse = minus_one
returned _ = pos 0

pub record System : Type 0 where
  pub shared : Shared
  pub pc : ℕ → Pc

abbrev pub update : (ℕ → Pc) → ℕ → Pc → ℕ → Pc
update f i p j = if i == j then p else f j

pub data Step (s : System) : System → Type 0 where
  pick :
      (i : ℕ) {m : Shared} {p : Pc}
      → Move i s.shared (s.pc i) m p
      → Step s (record { shared = m; pc = update s.pc i p })

abbrev pub idle : System
idle = record { shared = record { mutex = 0; task_id = 0 }; pc = λ _. outside }

pub data Reach : System → Type 0 where
  here : Reach idle
  next : {s t : System} → Reach s → Step s t → Reach t
