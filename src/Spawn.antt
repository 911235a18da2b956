-- ===== src/Spawn.antt =====
-- miscUtils/loop.c: tasks that call a function once, or again and again with a period; and the calls that
-- miscUtils/exectime.c times.
pub mod Ownership
pub mod Timing
use rtems_ssrl_apps.Prelude.{
  ℕ, zero, suc, ◌+◌, ◌-◌, ◌*◌, ◌%◌, ◌^◌, Bool, true, false, not, ◌&&◌, Option, none, some, List, [],
  ◌∷◌, ◌++◌, ◌==◌, ltb, if◌then◌else◌,
}
use rtems_ssrl_apps.Prelude.Int.{ℤ, pos, negsuc}
use rtems_ssrl_apps.MemUtils.{u32}

-- `ArgsRec`, the ten arguments as a list.
pub record Args : Type 0 where
  pub fn : ℕ
  pub period_ticks : ℕ
  pub times : ℤ
  pub arguments : List ℕ

-- What the task does, and what is done to start it.
pub data Event : Type 0 where
  create_period : (created : Bool) → Event
  period : (ticks : ℕ) → (on_time : Bool) → Event
  call : (fn : ℕ) → (arguments : List ℕ) → Event
  delete_period : Event
  free_args : Event
  delete_self : Event
  create_task : (priority stack : ℕ) → (created : Bool) → Event
  start_task : (started : Bool) → Event

-- `times`, as the number of turns of a loop `while (times-- > 0)`.
abbrev pub turns : ℤ → ℕ
turns (pos n) = n
turns (negsuc _) = 0

-- The loop, `k` turns from the `n`-th on; `on_time i` is whether the `i`-th period has not run out.
unfoldable pub wrap_loop : (on_time : ℕ → Bool) → (periodic : Bool) → Args → (k n : ℕ) → List Event
wrap_loop on_time periodic a zero n = []
wrap_loop on_time periodic a (suc k) n =
    let rest = call a.fn a.arguments ∷ wrap_loop on_time periodic a k (n + 1) in
    if not periodic
    then rest
    else if on_time n
    then period a.period_ticks true ∷ rest
    else period a.period_ticks false ∷ []

-- `created` is whether `rtems_rate_monotonic_create` succeeds.
unfoldable pub wrap : (created : Bool) → (on_time : ℕ → Bool) → Args → List Event
unfolding wrap_loop
wrap created on_time a =
    let n = turns a.times in
    let cleanup = free_args ∷ delete_self ∷ [] in
    if ltb 1 n
    then (if created
        then create_period true ∷ (wrap_loop on_time true a n 0 ++ delete_period ∷ cleanup)
        else create_period false ∷ cleanup)
    else wrap_loop on_time false a n 0 ++ cleanup

-- The answers of RTEMS: the id of a task that is created, which is never 0, and whether it starts.
pub record Tasks : Type 0 where
  pub created : Option ℕ
  pub started : Bool

-- The id returned, or 0.
unfoldable pub spawn : Tasks → (priority stack : ℕ) → ℕ × List Event
spawn t priority stack =
    let p = if priority == 0 then 60 else priority in
    let s = if stack == 0 then 20000 else stack in
    elim t.created [
      | none ↦ (0, create_task p s false ∷ [])
      | some tid ↦
          if t.started
          then (suc tid, create_task p s true ∷ start_task true ∷ [])
          else (0, create_task p s true ∷ start_task false ∷ [])
    ]

-- What the caller does behind `spawn`.
unfoldable pub after_spawn : Args → ℕ × List Event → Option (ℕ × List Event × Args)
after_spawn a (tid, es) = some (tid, es ++ (if tid == 0 then free_args ∷ [] else []), a)

-- The id, the events of the caller and the arguments that the task is given; `none` is the use of the NULL
-- of `calloc` or `malloc`.
unfoldable pub spawn_util :
    Tasks → (calloc : Bool) → (priority stack fn : ℕ) → List ℕ → Option (ℕ × List Event × Args)
spawn_util t calloc priority stack fn xs =
    let a : Args = record { fn = fn; period_ticks = 0; times = pos 1; arguments = xs } in
    if calloc then after_spawn a (spawn t priority stack) else none

unfoldable pub loop_util :
    Tasks
    → (malloc : Bool) → (period_ticks : ℕ) → (n_times : ℤ) → (fn : ℕ) → List ℕ
    → Option (ℕ × List Event × Args)
loop_util t malloc ticks n fn xs =
    let a : Args = record { fn = fn; period_ticks = ticks; times = n; arguments = xs } in
    if malloc then after_spawn a (spawn t 0 0) else none

-- `struct timeval`.
pub record Timeval : Type 0 where
  pub tv_sec : ℕ
  pub tv_usec : ℕ

-- `execUsN`: the calls made and the time between `then` and `now`, in 32 bits.
unfoldable pub exec_us_n : (rep : ℤ) → (before now : Timeval) → ℕ × ℕ
exec_us_n rep before now =
    let late = ltb now.tv_usec before.tv_usec in
    let usec = if late then now.tv_usec + 1000000 else now.tv_usec in
    let sec = if late then now.tv_sec + 2 ^ 32 - 1 else now.tv_sec in
    (
      turns rep + 1,
      u32 (u32 (sec + 2 ^ 32 - before.tv_sec) * 1000000 + usec + 2 ^ 32 - before.tv_usec),
    )

-- `execUs`.
unfoldable pub exec_us : (before now : Timeval) → ℕ × ℕ
exec_us before now = exec_us_n (pos 0) before now
