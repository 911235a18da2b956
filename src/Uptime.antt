-- ===== src/Uptime.antt =====
-- miscUtils/task_uptime.c, as RTEMS from 4.8.99 on has it: the CPU time of a task and of the idle task,
-- and the load of the CPU between two calls.
-- Floating-point numbers are a parameter with their operations, as is `_Timespec_Subtract`; what the
-- kernel's clock and tables hold is an argument.
pub mod Window
use rtems_ssrl_apps.Prelude.{
  ℕ, ◌+◌, ◌-◌, Bool, true, false, Option, none, some, ◌==◌, if◌then◌else◌,
}
use rtems_ssrl_apps.Prelude.Int.{ℤ, pos}

pub record Timespec : Type 0 where
  pub tv_sec : ℤ
  pub tv_nsec : ℤ

-- The operations on `double` that the code uses: the conversion of an integer, and `==`.
pub record Double (D : Type 0) : Type 0 where
  pub of_int : ℤ → D
  pub nano : D
  pub nan : D
  pub add : D → D → D
  pub sub : D → D → D
  pub mul : D → D → D
  pub div : D → D → D
  pub equal : D → D → Bool

-- The status codes of RTEMS.
pub data Status : Type 0 where
  successful : Status
  not_defined : Status
  invalid_id : Status

-- `miscu_get_idle_uptime`, of the time that the idle task has used, if there is one; interrupts are
-- disabled around the copy.
unfoldable pub miscu_get_idle_uptime : (idle : Option Timespec) → Timespec → Status × Timespec
miscu_get_idle_uptime idle pts = elim idle [ none ↦ (not_defined, pts) | some t ↦ (successful, t) ]

-- Where `_Thread_Get` finds a task, without `RTEMS_MULTIPROCESSING`; it disables dispatching if it does.
pub data Location : Type 0 where
  local : (cpu_time_used : Timespec) → Location
  error : Location

abbrev pub thread_get : Location → ℕ → ℕ
thread_get (local t) level = level + 1
thread_get error level = level

-- `miscu_get_task_uptime`: the status, the time stored and how often dispatching is disabled.
unfoldable pub miscu_get_task_uptime : Location → Timespec → (level : ℕ) → Status × Timespec × ℕ
miscu_get_task_uptime (local t) pts level = (successful, t, thread_get (local t) level - 1)
miscu_get_task_uptime error pts level = (invalid_id, pts, thread_get error level)

-- The static variables and the caller's.
pub data Cell : Type 0 where
  internal_up : Cell
  internal_idle : Cell
  caller : ℕ → Cell

abbrev pub same_cell : Cell → Cell → Bool
same_cell internal_up internal_up = true
same_cell internal_idle internal_idle = true
same_cell (caller i) (caller j) = i == j
same_cell _ _ = false

abbrev pub Store : Type 0
Store = Cell → Timespec

abbrev pub assign : Cell → Timespec → Store → Store
assign c t m d = if same_cell d c then t else m d

-- A pointer or NULL, for which the static variable stands in.
abbrev pub or_internal : Cell → Option Cell → Cell
or_internal c none = c
or_internal c (some d) = d

-- What a call finds: the uptime, if the clock can tell, and the idle task's time.
pub record Sample : Type 0 where
  pub uptime : Option Timespec
  pub idle : Option Timespec

module _ {D : Type 0} (f : Double D) where
  -- `d.tv_sec + d.tv_nsec * 1.0E-9`
  unfoldable pub seconds : Timespec → D
  seconds d = f.add (f.of_int d.tv_sec) (f.mul (f.of_int d.tv_nsec) f.nano)

  -- `100.0 * ( 1.0 - idle / res )`
  unfoldable pub percentage : (res idle : D) → D
  percentage res idle = f.mul (f.of_int (pos 100)) (f.sub (f.of_int (pos 1)) (f.div idle res))

module _ {D : Type 0} (f : Double D) (timespec_subtract : Timespec → Timespec → Timespec) where
  -- Behind the call of `miscu_get_idle_uptime`.
  unfoldable pub measured :
      (up idle : Cell) → (now : Timespec) → (res : D) → Status × Timespec → Store → D × Store
  measured up idle now res (successful, now_idle) m = (
    percentage f res (seconds f (timespec_subtract (m idle) now_idle)),
    assign idle now_idle (assign up now m),
  )
  measured up idle now res (_, t) m = (f.nan, m)

  -- `miscu_cpu_load_percentage`. What the local `now_idletime` holds before is never read.
  unfoldable pub miscu_cpu_load_percentage :
      (lst_uptime lst_idletime : Option Cell) → Sample → Store → D × Store
  miscu_cpu_load_percentage lst_uptime lst_idletime w m =
      let up = or_internal internal_up lst_uptime in
      let idle = or_internal internal_idle lst_idletime in
      elim w.uptime [
        | none ↦ (f.nan, m)
        | some now ↦
            let res = seconds f (timespec_subtract (m up) now) in
            if f.equal (f.of_int (pos 0)) res
            then (f.nan, m)
            else measured up idle now res (miscu_get_idle_uptime w.idle now) m
      ]

abbrev pub clear_cell : Option Cell → Store → Store
clear_cell none m = m
clear_cell (some c) m = assign c (record { tv_sec = pos 0; tv_nsec = pos 0 }) m

-- `miscu_cpu_load_percentage_init`: a NULL pointer leaves the static variable as it is.
unfoldable pub miscu_cpu_load_percentage_init :
    (lst_uptime lst_idletime : Option Cell) → Store → Store
miscu_cpu_load_percentage_init lst_uptime lst_idletime m =
    clear_cell lst_idletime (clear_cell lst_uptime m)
