-- ===== src/Telnetd/Daemon/Start.antt =====
-- The start of the daemon of telnetd/telnetd.c: `startTelnetd`, `initialize_telnetd`, the default spawn
-- function `telnetd_dflt_spawn` and the wrapper `wrap_delete` in which a spawned task begins.
use rtems_ssrl_apps.Prelude.{
  ℕ, zero, suc, ◌+◌, ◌-◌, ◌≤◌, ◌<◌, ◌%◌, ◌^◌, Bool, false, not, ◌&&◌, List, [], ◌∷◌, ◌++◌, ◌≡◌, ◌≢◌,
  arith, ◌==◌, ltb, if◌then◌else◌, codes,
}
use rtems_ssrl_apps.Prelude.Int.{ℤ, pos, negsuc, is_nonzero, minus_one}

-- The variables of the daemon. The shell is a function pointer, 0 where there is none.
pub record Variables : Type 0 where
  pub task_id : ℕ
  pub stack_size : ℕ
  pub task_priority : ℕ
  pub dont_spawn : Bool
  pub shell : ℕ
  pub shell_arg : ℕ

-- A call of the spawn function for the daemon's task.
pub record Spawn : Type 0 where
  pub name : List ℕ
  pub priority : ℕ
  pub stack : ℕ

-- What the build and the system give: RTEMS' minimum stack, the network task's priority, whether the
-- driver initializes and whether the task is spawned.
pub record Platform : Type 0 where
  pub minimum_stack_size : ℕ
  pub network_task_priority : ℤ
  pub pty_initialized : Bool
  pub spawned : Bool

-- The value returned, the variables, and the calls of the spawn function.
pub record Started : Type 0 where
  pub code : ℤ
  pub variables : Variables
  pub spawns : List Spawn

abbrev started : ℤ → Variables → List Spawn → Started
started c v ss = record { code = c; variables = v; spawns = ss }

-- RTEMS_RESOURCE_IN_USE.
abbrev resource_in_use : ℤ
resource_in_use = pos 12

unfoldable pub initialize_telnetd : Platform → Variables → Started
initialize_telnetd f v =
    let w = if v.stack_size == 0 then record v { stack_size = 32000 } else v in
    let stack = if v.dont_spawn then w.stack_size else f.minimum_stack_size in
    let call : Spawn = record { name = codes "TNTD"; priority = v.task_priority; stack = stack } in
    if not (v.task_id == 0)
    then started resource_in_use v []
    else started (if f.spawned then pos 0 else minus_one) w (call ∷ [])

-- `if (!priority) priority = …; if (priority < 2) priority = 100;`
abbrev pub chosen_priority : Platform → ℤ → ℕ
chosen_priority f priority =
    let p = if is_nonzero priority then priority else f.network_task_priority in
    elim p [ pos n ↦ if ltb n 2 then 100 else n | negsuc _ ↦ 100 ]

-- A C `int` kept in a 32-bit unsigned variable.
abbrev pub to_u32 : ℤ → ℕ
to_u32 (pos n) = n % 2 ^ 32
to_u32 (negsuc n) = (2 ^ 32 - 1 - n) % 2 ^ 32

unfoldable pub start_telnetd :
    Platform → (cmd arg : ℕ) → (dont_spawn : Bool) → (stack priority : ℤ) → Variables → Started
unfolding initialize_telnetd
start_telnetd f cmd arg dont_spawn stack priority v =
    let w = record v {
      shell = if cmd == 0 then v.shell else cmd;
      shell_arg = arg;
      stack_size = to_u32 stack;
      task_priority = chosen_priority f priority;
      dont_spawn = dont_spawn;
    } in
    if v.shell == 0 && cmd == 0
    then started (pos 1) v []
    else if not (v.task_id == 0)
    then started (pos 1) v []
    else if not f.pty_initialized
    then started (pos 1) v []
    else initialize_telnetd f w

-- A start that succeeds has a shell, a stack and a priority of two at least, and spawns one task, with
-- that priority.
pub start_telnetd-Configured :
    (f : Platform) (cmd arg : ℕ) (dont_spawn : Bool) (stack priority : ℤ) (v : Variables)
    → let s = start_telnetd f cmd arg dont_spawn stack priority v in
      s.code ≡ pos 0
      → (s.variables.shell ≢ 0)
        × (0 < s.variables.stack_size)
        × (2 ≤ s.variables.task_priority)
        × (s.variables.shell_arg ≡ arg)
        × (s.variables.dont_spawn ≡ dont_spawn)
unfolding start_telnetd
start_telnetd-Configured f cmd arg dont_spawn stack priority v e = ground arith

-- `_cexpModuleInitialize` of telnetd/telnetd.mod.c with the telnetd of this directory: the shell is
-- `cexpWrap`.
unfoldable pub module_initialize : Platform → (cexp_wrap : ℕ) → Variables → Started
unfolding start_telnetd
module_initialize f cexp_wrap v = start_telnetd f cexp_wrap 0 false (pos 32000) (pos 0) v

-- If it succeeds, shells have tasks of their own, with stacks of 32000 bytes and the priority that is
-- chosen where none is asked for.
pub module_initialize-Configured :
    (f : Platform) (cexp_wrap : ℕ) (v : Variables)
    → let s = module_initialize f cexp_wrap v in
      s.code ≡ pos 0
      → (s.variables.dont_spawn ≡ false)
        × (s.variables.stack_size ≡ 32000)
        × (s.variables.task_priority ≡ chosen_priority f (pos 0))
unfolding module_initialize initialize_telnetd
module_initialize-Configured f cexp_wrap v e = ground arith

-- After a start that succeeds, the same call succeeds again, and spawns a second daemon.
pub start_telnetd_twice :
    (f : Platform) (cmd arg : ℕ) (dont_spawn : Bool) (stack priority : ℤ) (v : Variables)
    → let s = start_telnetd f cmd arg dont_spawn stack priority v in
      let t = start_telnetd f cmd arg dont_spawn stack priority s.variables in
      s.code ≡ pos 0 → (t.code ≡ pos 0) × (t.spawns ≡ s.spawns) × (s.spawns ≢ [])
unfolding start_telnetd
start_telnetd_twice f cmd arg dont_spawn stack priority v e = ground arith

-- What the spawn function and a spawned task do with the argument block of the wrapper and the task.
pub data Action : Type 0 where
  malloc_block : Action
  free_block : Action
  task_create : (name : List ℕ) (priority stack : ℕ) → Action
  task_start : ℕ → Action
  task_delete_self : Action
  run : Action

-- The first `n` characters of `name`, padded: `strncpy(nm, name, 4)` pads with NUL.
abbrev task_name : ℕ → List ℕ → List ℕ
task_name zero name = []
task_name (suc n) [] = 0 ∷ task_name n []
task_name (suc n) (c ∷ cs) = c ∷ task_name n cs

-- `create` and `start` are the status codes, `id` the new task; the value 0 is the failure.
unfoldable pub telnetd_dflt_spawn :
    (malloc : Bool) → (create start id : ℕ) → Spawn → ℕ × List Action
telnetd_dflt_spawn malloc create start id s =
    let make = task_create (task_name 4 s.name) s.priority s.stack in
    if not malloc
    then (0, [])
    else if not (create == 0)
    then (0, malloc_block ∷ make ∷ free_block ∷ [])
    else if not (start == 0)
    then (0, malloc_block ∷ make ∷ task_start id ∷ free_block ∷ [])
    else (id, malloc_block ∷ make ∷ task_start id ∷ [])

-- The task that `telnetd_dflt_spawn` starts: `returns` is whether the function it runs does.
unfoldable pub wrap_delete : Bool → List Action
wrap_delete returns = free_block ∷ run ∷ (if returns then task_delete_self ∷ [] else [])

abbrev pub allocs : Action → ℕ
allocs malloc_block = 1
allocs _ = 0

abbrev pub frees : Action → ℕ
frees free_block = 1
frees _ = 0

abbrev pub total : (Action → ℕ) → List Action → ℕ
total f [] = 0
total f (a ∷ rest) = f a + total f rest

-- The argument block of the wrapper is freed as often as it is allocated: by the spawn function if no
-- task starts, else by the task, before the function it runs.
pub telnetd_dflt_spawn-frees :
    (malloc : Bool) (create start id : ℕ) (s : Spawn) (returns : Bool)
    → id ≢ 0
    → let (task, steps) = telnetd_dflt_spawn malloc create start id s in
      let all = steps ++ (if task == 0 then [] else wrap_delete returns) in
      total frees all ≡ total allocs all
unfolding telnetd_dflt_spawn wrap_delete
telnetd_dflt_spawn-frees malloc create start id s returns n = ground arith
