-- ===== src/Tests/VecContext.antt =====
-- Runs of the vector contexts of altivec/vec_context.c.
use rtems_ssrl_apps.Prelude.{
  ℕ, ◌+◌, ◌*◌, ◌-◌, ◌%◌, ◌^◌, ◌≤◌, ◌≡◌, ◌==◌, true, false, not, none, some, [], ◌∷◌, if◌then◌else◌,
  refl, inr, arith,
}
use rtems_ssrl_apps.Prelude.Int.{pos}
use rtems_ssrl_apps.Altivec.VecRegisters.{
  Vec, VectorUnit, Processor, contents, save_vec_context, load_vec_context,
}
use rtems_ssrl_apps.Altivec.VecRegisters.Saved.{
  IsSaved, save_vec_context-IsSaved, load_vec_context-save,
}
use rtems_ssrl_apps.Altivec.VecContext.{
  Machine, attach_context, line_up, context_block_size, extalloc, extfree, vec_task_enable,
  continues, enabled, vec_thread_delete, vec_thread_restart, vec_thread_switch, get_tcp, set_tcp,
  set_bptr, init_vec_ctxt, workspace_allocate, save, load,
}
use rtems_ssrl_apps.Altivec.VecContext.Tasks.{
  tasks, ve, mem, bptr, dispatch_to, IsBlock, System, allocate, attach, Step, allocating, attaching,
  switching, allocated_by, attached_by, stopped, IsAccounted, IsPending,
}
use rtems_ssrl_apps.Altivec.VecContext.Enabling.{allocated}
use rtems_ssrl_apps.Altivec.VecContext.Effects.{Sees}
use rtems_ssrl_apps.Altivec.VecContext.Isolation.{
  IsInstalled, Reach, installed, step, Reach-Isolates, Reach-IsAccounted, Reach-Owned,
}
use rtems_ssrl_apps.Altivec.VecContext.Frames.{
  allocate_context-Decides, vec_task_enable-Decides, extfree-extalloc,
}
use rtems_ssrl_apps.Altivec.VecContext.Switch.{taken}
use rtems_ssrl_apps.Altivec.VecContext.Deleting.{freed, away_and_back, vec_thread_delete-Dangles}
use rtems_ssrl_apps.Altivec.VecContext.Lost.{stays, Run-stopped}
use rtems_ssrl_apps.Altivec.VecExtension.{Extension, Platform, finalize}
use rtems_ssrl_apps.Altivec.VecExtension.Lifetime.{Installs, finalize-held}

abbrev vec : ℕ → Vec
vec i = record { w0 = i; w1 = i + 1; w2 = i * 2; w3 = 7 }

abbrev unit_a : VectorUnit
unit_a = record { vrsave = 2 ^ 32 - 1; vscr = 3; vr = vec }

abbrev saving : Processor
saving = record { g0 = 1; g4 = 2; g5 = 3; unit = unit_a; buffer = λ i. vec (i + 100); written = [] }

save_vec_context-IsSaved_example : IsSaved saving (save_vec_context saving)
save_vec_context-IsSaved_example = save_vec_context-IsSaved saving refl

-- The buffer is loaded by another processor.
abbrev loading : Processor
loading = record {
  g0 = 9;
  g4 = 8;
  g5 = 7;
  unit = record { vrsave = 0; vscr = 0; vr = λ i. vec 5 };
  buffer = (save_vec_context saving).buffer;
  written = [];
}

load_vec_context-save_example : contents (load_vec_context loading).unit ≡ contents saving.unit
load_vec_context-save_example = load_vec_context-save saving loading refl

-- Task 1 runs on a stack of two frames.
abbrev fresh : Machine
fresh = record {
  vec_owner = none;
  slot = λ t. 0;
  buffers = λ a. vec;
  blocks = [];
  unit = unit_a;
  msr_ve = false;
  saved_ve = λ t. false;
  gpr1 = λ t. 4160;
  words = λ a. if a == 4096 then 4160 else 0;
  executing = 1;
  level = 0;
}

abbrev begun : System
begun = record { machine = fresh; tcbext = λ t. 0; loose = λ a. false }

begun-IsInstalled : IsInstalled begun
begun-IsInstalled = record {
  no_owner = refl;
  no_slots = λ t. refl;
  no_blocks = refl;
  no_ve = refl;
  no_saved_ve = λ t. refl;
  no_calls = λ t. refl;
  no_loose = λ a. refl;
}

block_64 : IsBlock 64 []
block_64 = record { word = refl; fits = ground arith; fresh = refl }

extfree-extalloc_example :
    (extalloc 64 fresh ≡ some (line_up 64, allocated 64 fresh))
    × (line_up 64 % 32 ≡ 0)
    × (64 ≤ line_up 64)
    × (line_up 64 + 34 * 16 ≤ 64 + context_block_size)
    × ((allocated 64 fresh).blocks ≡ 64 ∷ [])
    × ((extfree (line_up 64) (allocated 64 fresh)).blocks ≡ [])
    × ((extfree (line_up 64) (allocated 64 fresh)).level ≡ 0)
extfree-extalloc_example = extfree-extalloc 64 fresh refl block_64

vec_task_enable-Decides_example :
    vec_task_enable 7 4096 64 fresh
    ≡ some (enabled, attach_context (line_up 64) (allocated 64 fresh))
vec_task_enable-Decides_example =
    vec_task_enable-Decides 7 4096 64 fresh (4160 ∷ []) refl (inr block_64)

-- Task 1 is between the halves of its call, then task 2 begins one of its own.
abbrev one_call : System
one_call = allocated_by begun (continues (line_up 64) (allocated 64 fresh))

one_reached : Reach one_call
one_reached = step (installed begun-IsInstalled) (
    allocating 7 4096 64 refl (inr block_64)
      (allocate_context-Decides 7 4096 64 fresh (4160 ∷ []) refl (inr block_64)))

abbrev second : System
second = record one_call { machine = dispatch_to 2 one_call.machine }

abbrev two_calls : System
two_calls = allocated_by second (continues (line_up 1024) (allocated 1024 second.machine))

block_1024 : IsBlock 1024 second.machine.blocks
unfolding dispatch_to attach_context vec_thread_switch get_tcp set_tcp set_bptr init_vec_ctxt
    workspace_allocate save load
block_1024 = record { word = refl; fits = ground arith; fresh = refl }

two_begin : Step allocate second two_calls
unfolding dispatch_to attach_context vec_thread_switch get_tcp set_tcp set_bptr init_vec_ctxt
    workspace_allocate save load
two_begin =
    allocating 7 4096 1024 refl (inr block_1024)
      (allocate_context-Decides 7 4096 1024 second.machine (4160 ∷ []) refl (inr block_1024))

two_reached : Reach two_calls
two_reached = step (step one_reached (switching 2)) two_begin

Reach-IsAccounted_example : IsAccounted two_calls.loose two_calls.machine × IsPending two_calls
Reach-IsAccounted_example = Reach-IsAccounted two_reached

Reach-Isolates_example :
    Sees two_calls.machine.executing
      (tasks two_calls.machine)
      (tasks (attached_by two_calls).machine)
      attach
    × ((attached_by two_calls).machine.level ≡ two_calls.machine.level)
unfolding dispatch_to attach_context vec_thread_switch get_tcp set_tcp set_bptr init_vec_ctxt
    workspace_allocate save load
Reach-Isolates_example = Reach-Isolates two_reached (attaching refl)

-- Task 1 is restarted before it runs again.
Run-stopped_example :
    (mem (bptr two_calls.machine 64) (vec_thread_restart 1 two_calls.machine).blocks ≡ true)
    × ((v : ℕ)
        → (((vec_thread_restart 1 two_calls.machine).slot v == 64) ≡ false)
          × (((stopped 1 two_calls (vec_thread_restart 1 two_calls.machine)).tcbext v == 64)
              ≡ false))
unfolding dispatch_to attach_context vec_thread_switch get_tcp set_tcp set_bptr init_vec_ctxt
    workspace_allocate save load
Run-stopped_example = Run-stopped 1 two_reached refl (inr refl) stays

-- Both calls come to their ends, that of task 2 first.
abbrev two_enabled : System
two_enabled =
    let attached = attached_by two_calls in
    attached_by (record attached { machine = dispatch_to 1 attached.machine })

both_reached : Reach two_enabled
unfolding dispatch_to attach_context vec_thread_switch get_tcp set_tcp set_bptr init_vec_ctxt
    workspace_allocate save load
both_reached = step (step (step two_reached (attaching refl)) (switching 1)) (attaching refl)

Reach-Owned_example :
    (tasks two_enabled.machine two_enabled.machine.executing
      ≡ (if two_enabled.machine.msr_ve then some (contents two_enabled.machine.unit) else none))
    × (ve two_enabled.machine 1 ≡ not (two_enabled.machine.slot 1 == 0))
Reach-Owned_example = Reach-Owned both_reached 1

-- Task 1 deletes itself, and task 2 comes in between.
abbrev after_delete : Machine
after_delete = set_tcp 1 0 (away_and_back 2 1 (freed 1 two_enabled.machine))

vec_thread_delete-Dangles_example :
    (vec_thread_delete 1 two_enabled.machine ≡ set_tcp 1 0 (freed 1 two_enabled.machine))
    × (after_delete.vec_owner ≡ some 1)
    × (after_delete.slot 1 ≡ 0)
    × (vec_thread_switch 2 after_delete
        ≡ taken 2 (load (two_enabled.machine.slot 2) (save 0 after_delete)))
unfolding dispatch_to attach_context vec_thread_switch get_tcp set_tcp set_bptr init_vec_ctxt
    workspace_allocate save load
vec_thread_delete-Dangles_example =
    vec_thread_delete-Dangles two_enabled.machine 1 2 2 refl refl refl

abbrev extension : Extension
extension = record { id = 7; idx = 3 }

finalize-held_example :
    ((finalize (λ i. true) (vec_thread_delete 1 two_enabled.machine) extension).0 ≡ pos 0)
    × ((finalize (λ i. true) (vec_thread_delete 1 two_enabled.machine) extension).2.id ≡ 0)
    × (((finalize (λ i. true) (vec_thread_delete 1 two_enabled.machine) extension).1.slot 2 == 0)
        ≡ false)
    × (ve (finalize (λ i. true) (vec_thread_delete 1 two_enabled.machine) extension).1 2 ≡ true)
    × (tasks (finalize (λ i. true) (vec_thread_delete 1 two_enabled.machine) extension).1 2
        ≡ tasks two_enabled.machine 2)
unfolding dispatch_to attach_context vec_thread_switch get_tcp set_tcp set_bptr init_vec_ctxt
    workspace_allocate save load
finalize-held_example =
    finalize-held two_enabled extension (λ i. true) 1 2 both_reached refl refl refl refl refl

abbrev platform : Platform
platform = record {
  stack_alignment = 16;
  r1 = 8192;
  callee_r1 = 8176;
  has_altivec = true;
  created = some 7;
  get_index = λ i. 3;
}

platform-Installs : Installs platform (record { id = 0; idx = 0 })
platform-Installs = record { none_yet = refl; frame = ground arith; altivec = refl }

abbrev none_yet : Extension
none_yet = record { id = 0; idx = 0 }
