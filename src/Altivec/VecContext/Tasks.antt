-- ===== src/Altivec/VecContext/Tasks.antt =====
-- What tasks and the kernel do with the extension of altivec/vec_context.c, and what a task sees. A call
-- of `vec_task_enable` is two steps: dispatching is enabled in between.
use rtems_ssrl_apps.Prelude.{
  ℕ, ◌+◌, ◌%◌, ◌^◌, ◌≤◌, ◌≡◌, ◌⊎◌, ◌||◌, ◌&&◌, ◌==◌, leb, Bool, true, false, not, Option, none,
  some, List, [], ◌∷◌, if◌then◌else◌,
}
use rtems_ssrl_apps.Altivec.VecRegisters.{VectorUnit, Contents, contents, saved_contents}
use rtems_ssrl_apps.Altivec.VecContext.{
  Machine, put, is_owner, context_block_size, line_up, Allocation, returns, continues,
  allocate_context, attach_context, vec_thread_switch, vec_thread_start, vec_thread_restart,
  vec_thread_delete,
}

-- The kernel's context switch behind the hook: the exchange of the MSR with the saved ones.
abbrev pub context_switch : (heir : ℕ) → Machine → Machine
context_switch heir s =
    let saved = put s.executing s.msr_ve s.saved_ve in
    record s { saved_ve = saved; msr_ve = saved heir; executing = heir }

-- The kernel's dispatcher: the hook, then the context switch.
unfoldable pub dispatch_to : (heir : ℕ) → Machine → Machine
dispatch_to heir s = context_switch heir (vec_thread_switch heir s)

-- The same, with code in between that sets the vector unit while MSR_VE is still the executing task's.
unfoldable pub dispatch_using : (heir : ℕ) → VectorUnit → Machine → Machine
dispatch_using heir u s = context_switch heir (record (vec_thread_switch heir s) { unit = u })

-- No byte of a block at `p` is in a block at `q`.
abbrev pub apart : ℕ → ℕ → Bool
apart p q = leb (p + context_block_size) q || leb (q + context_block_size) p

abbrev pub all_apart : ℕ → List ℕ → Bool
all_apart p [] = true
all_apart p (q ∷ qs) = apart p q && all_apart p qs

-- What the workspace may give: 0, or a block of words that lies apart from those that are in use.
pub record IsBlock (p : ℕ) (blocks : List ℕ) : Type 0 where
  pub word : p % 4 ≡ 0
  pub fits : p + context_block_size ≤ 2 ^ 32
  pub fresh : all_apart p blocks ≡ true

-- The machine; the variable `tcbext` of each task's call of `vec_task_enable`, 0 while it is not between
-- the two halves of one; and which contexts are allocated and have not been attached to a task.
pub record System : Type 0 where
  pub machine : Machine
  pub tcbext : ℕ → ℕ
  pub loose : ℕ → Bool

pub data Event : Type 0 where
  allocate : Event
  attach : Event
  switch : (heir : ℕ) → Event
  switch_using : (heir : ℕ) → VectorUnit → Event
  use_unit : VectorUnit → Event
  remove_task : (t : ℕ) → Event
  start_task : (t : ℕ) → Event
  restart_task : (t : ℕ) → Event

-- Behind the first half of `vec_task_enable` by the task that runs, and behind the second.
abbrev pub allocated_by : System → Allocation → System
allocated_by s (returns r t) = record s { machine = t }
allocated_by s (continues a t) = record {
  machine = t;
  tcbext = put s.machine.executing a s.tcbext;
  loose = put a true s.loose;
}

abbrev pub attached_by : System → System
attached_by s =
    let x = s.machine.executing in
    record {
      machine = attach_context (s.tcbext x) s.machine;
      tcbext = put x 0 s.tcbext;
      loose = put (s.tcbext x) false s.loose;
    }

-- A task that is deleted or restarted goes on with no call.
abbrev pub stopped : ℕ → System → Machine → System
stopped d s t = record s { machine = t; tcbext = put d 0 s.tcbext }

-- A task that runs with MSR_VE may set the vector unit as it likes; without, a vector instruction traps.
-- That holds behind the hook of a dispatch as well, where the task is still executing. A task is started
-- once, before it has run.
pub data Step : Event → System → System → Type 0 where
  allocating :
      {s : System} {x : Allocation} (id r1 p : ℕ)
      → (s.tcbext s.machine.executing == 0) ≡ true
      → (p ≡ 0) ⊎ IsBlock p s.machine.blocks
      → allocate_context id r1 p s.machine ≡ some x
      → Step allocate s (allocated_by s x)
  attaching :
      {s : System} → (s.tcbext s.machine.executing == 0) ≡ false → Step attach s (attached_by s)
  switching :
      {s : System} (heir : ℕ)
      → Step (switch heir) s (record s { machine = dispatch_to heir s.machine })
  racing :
      {s : System} (heir : ℕ) (u : VectorUnit)
      → s.machine.msr_ve ≡ true
      → Step (switch_using heir u) s (record s { machine = dispatch_using heir u s.machine })
  using :
      {s : System} (u : VectorUnit)
      → s.machine.msr_ve ≡ true
      → Step (use_unit u) s (record s { machine = record s.machine { unit = u } })
  removing :
      {s : System} (t : ℕ) → Step (remove_task t) s (stopped t s (vec_thread_delete t s.machine))
  starting :
      {s : System} (t : ℕ)
      → s.machine.slot t ≡ 0
      → Step (start_task t) s (record s { machine = vec_thread_start t s.machine })
  restarting :
      {s : System} (t : ℕ) → Step (restart_task t) s (stopped t s (vec_thread_restart t s.machine))

-- What a task with a context sees of the vector unit when it runs.
abbrev pub view : Machine → ℕ → Contents
view s t = if is_owner s.vec_owner t then contents s.unit else saved_contents (s.buffers (s.slot t))

unfoldable pub tasks : Machine → ℕ → Option Contents
tasks s t = if s.slot t == 0 then none else some (view s t)

-- MSR_VE of a task: in the MSR while it runs, else saved.
abbrev pub ve : Machine → ℕ → Bool
ve s t = if t == s.executing then s.msr_ve else s.saved_ve t

-- The owner has a context, MSR_VE is set for the tasks that have one, and only the owner runs with it.
pub record IsOrdered (s : Machine) : Type 0 where
  pub owner_holds : (o : ℕ) → s.vec_owner ≡ some o → (s.slot o == 0) ≡ false
  pub owner_runs : s.msr_ve ≡ true → s.vec_owner ≡ some s.executing
  pub mode : (t : ℕ) → ve s t ≡ not (s.slot t == 0)

abbrev pub mem : ℕ → List ℕ → Bool
mem p [] = false
mem p (q ∷ qs) = (q == p) || mem p qs

abbrev pub pairwise : List ℕ → Bool
pairwise [] = true
pairwise (q ∷ qs) = all_apart q qs && pairwise qs

abbrev pub bptr : Machine → ℕ → ℕ
bptr s vc = (s.buffers vc 0).w1

-- A context `vc` lies on its line in the block of its back pointer.
pub record IsHeld (s : Machine) (vc : ℕ) : Type 0 where
  pub in_use : mem (bptr s vc) s.blocks ≡ true
  pub word : bptr s vc % 4 ≡ 0
  pub fits : bptr s vc + context_block_size ≤ 2 ^ 32
  pub line : line_up (bptr s vc) ≡ vc

-- The contexts there are: those of tasks and the loose ones.
abbrev pub IsLive : (ℕ → Bool) → Machine → ℕ → Type 0
IsLive loose s a = ((t : ℕ) × ((s.slot t == 0) ≡ false) × (s.slot t ≡ a)) ⊎ (loose a ≡ true)

-- Contexts are not shared, no task has a loose one, each stands in a block that is in use, and each block
-- in use is that of a context.
pub record IsAccounted (loose : ℕ → Bool) (s : Machine) : Type 0 where
  pub distinct : (t u : ℕ) → (s.slot t == 0) ≡ false → s.slot t ≡ s.slot u → t ≡ u
  pub loose_apart : (a : ℕ) → loose a ≡ true → (t : ℕ) → (s.slot t == a) ≡ false
  pub some_context : (a : ℕ) → IsLive loose s a → (a == 0) ≡ false
  pub held : (a : ℕ) → IsLive loose s a → IsHeld s a
  pub blocks_apart : pairwise s.blocks ≡ true
  pub no_leak : (p : ℕ) → mem p s.blocks ≡ true → (a : ℕ) × IsLive loose s a × (bptr s a ≡ p)

-- The context of a call is loose, the task has none yet, and no other call has it.
pub record IsPending (s : System) : Type 0 where
  pub is_loose : (t : ℕ) → (s.tcbext t == 0) ≡ false → s.loose (s.tcbext t) ≡ true
  pub no_slot : (t : ℕ) → (s.tcbext t == 0) ≡ false → (s.machine.slot t == 0) ≡ true
  pub own : (t u : ℕ) → (s.tcbext t == 0) ≡ false → s.tcbext t ≡ s.tcbext u → t ≡ u
