-- ===== src/Altivec/VecContext.antt =====
-- altivec/vec_context.c and ppc_stack_probe.c: the user extension that gives tasks a context of the
-- vector unit, without `ALL_THREADS_ALTIVEC` and with `IGNORE_VRSAVE`, as the file defines it.
-- A task is the number of its control block, a context the address of its buffer, 0 for none. The
-- workspace, the CPU's type and the creation of extensions are parameters; hints to the cache
-- (`dssall`, `dst`) and `isync` change no state.

pub mod Tasks
pub mod Switch
pub mod Dispatch
pub mod Removal
pub mod Blocks
pub mod Enabling
pub mod Allocated
pub mod Prepared
pub mod Attached
pub mod Pending
pub mod Freed
pub mod Effects
pub mod Events
pub mod Isolation
pub mod Lost
pub mod Deleting
pub mod Frames
use rtems_ssrl_apps.Prelude.{
  ℕ, zero, suc, ◌+◌, ◌-◌, ◌*◌, ◌/◌, ◌%◌, ◌^◌, Bool, true, false, not, ◌&&◌, Option, none, some,
  List, [], ◌∷◌, ◌==◌, leb, if◌then◌else◌, ◌||◌,
}
use rtems_ssrl_apps.Altivec.VecRegisters.{
  Vec, Buffer, VectorUnit, Processor, save_vec_context, load_vec_context,
}

-- The static variables, the extension's slot of each task, the workspace, and of the machine what the
-- extension touches: the vector unit, MSR_VE in the MSR and in the saved one of each task, saved stack
-- pointers, the words of stacks, the task that runs and how often dispatching is disabled.
pub record Machine : Type 0 where
  pub vec_owner : Option ℕ
  pub slot : ℕ → ℕ
  pub buffers : ℕ → Buffer
  pub blocks : List ℕ
  pub unit : VectorUnit
  pub msr_ve : Bool
  pub saved_ve : ℕ → Bool
  pub gpr1 : ℕ → ℕ
  pub words : ℕ → ℕ
  pub executing : ℕ
  pub level : ℕ

-- A function changed at one argument.
abbrev pub put {ℓ} : {A : Type ℓ} → ℕ → A → (ℕ → A) → ℕ → A
put i x f j = if j == i then x else f j

abbrev pub is_owner : Option ℕ → ℕ → Bool
is_owner none t = false
is_owner (some o) t = o == t

abbrev pub disable_dispatch : Machine → Machine
disable_dispatch s = record s { level = s.level + 1 }

abbrev pub enable_dispatch : Machine → Machine
enable_dispatch s = record s { level = s.level - 1 }

unfoldable pub get_tcp : Machine → ℕ → ℕ
get_tcp s t = s.slot t

unfoldable pub set_tcp : ℕ → ℕ → Machine → Machine
set_tcp t vp s = record s { slot = put t vp s.slot }

-- `isync` and `dssall` change nothing that is modelled.
abbrev pub set_msr_ve : Machine → Machine
set_msr_ve s = record s { msr_ve = true }

abbrev pub rst_msr_ve : Bool → Machine → Machine
rst_msr_ve old s = record s { msr_ve = old }

unfoldable pub clr_msr_ve : Machine → Machine
clr_msr_ve s = record s { msr_ve = false }

-- `BPTR`, and `VRSAVE` and `VSCR`, of a buffer and of the context at `a` are set.
abbrev pub store_bptr : ℕ → Buffer → Buffer
store_bptr p m = put 0 (record (m 0) { w1 = p }) m

unfoldable pub set_bptr : ℕ → ℕ → Machine → Machine
set_bptr a p s = record s { buffers = put a (store_bptr p (s.buffers a)) s.buffers }

abbrev pub init_buffer : Buffer → Buffer
init_buffer m = put 0 (record (m 0) { w0 = 2 ^ 32 - 1; w3 = 0 }) m

unfoldable pub init_vec_ctxt : ℕ → Machine → Machine
init_vec_ctxt a s = record s { buffers = put a (init_buffer (s.buffers a)) s.buffers }

-- `sizeof(VecCtxtBuf) + PPC_CACHE_ALIGNMENT - 4`.
abbrev pub context_block_size : ℕ
context_block_size = 34 * 16 + 32 - 4

abbrev pub line_up : ℕ → ℕ
line_up p = (p + 32 - 4) % 2 ^ 32 / 32 * 32

-- One occurrence of `p` is removed.
unfoldable pub remove : ℕ → List ℕ → List ℕ
remove p [] = []
remove p (q ∷ qs) = if q == p then qs else q ∷ remove p qs

-- `extalloc`, of what `_Workspace_Allocate` gives: `none` if the assertion fails. It does not ask
-- whether it is given 0; the back pointer is then stored in the first bytes of memory.
unfoldable pub workspace_allocate : (p : ℕ) → Machine → Machine
workspace_allocate p s = if p == 0 then s else record s { blocks = p ∷ s.blocks }

unfoldable pub extalloc : (p : ℕ) → Machine → Option (ℕ × Machine)
extalloc p s =
    let allocated = workspace_allocate p (disable_dispatch s) in
    let paligned = line_up p in
    let t = enable_dispatch (set_bptr paligned p allocated) in
    if leb p paligned && (paligned % 32 == 0) then some (paligned, t) else none

unfoldable pub extfree : ℕ → Machine → Machine
extfree vc s0 =
    let s = disable_dispatch s0 in
    enable_dispatch (record s { blocks = remove (s.buffers vc 0).w1 s.blocks })

-- `save_vec_context` and `load_vec_context` of a context. The general registers on entry do not matter.
abbrev pub at_context : Machine → ℕ → Processor
at_context s vp = record {
  g0 = 0;
  g4 = 0;
  g5 = 0;
  unit = s.unit;
  buffer = s.buffers vp;
  written = [];
}

unfoldable pub save : ℕ → Machine → Machine
save vp s =
    let c = save_vec_context (at_context s vp) in
    record s { unit = c.unit; buffers = put vp c.buffer s.buffers }

unfoldable pub load : ℕ → Machine → Machine
load vp s = record s { unit = (load_vec_context (at_context s vp)).unit }

abbrev pub save_owner : Option ℕ → Machine → Machine
save_owner none s = s
save_owner (some o) s = save (get_tcp s o) s

-- `vec_thread_switch`: MSR_VE is set for the exchange, and restored.
unfoldable pub vec_thread_switch : (heir : ℕ) → Machine → Machine
vec_thread_switch heir s =
    let vp = get_tcp s heir in
    let exchanged = load vp (save_owner s.vec_owner (set_msr_ve s)) in
    if not (vp == 0) && not (is_owner s.vec_owner heir)
    then rst_msr_ve s.msr_ve (record exchanged { vec_owner = some heir })
    else s

-- The walk up the stack, from the `i`-th of at most 100 frames: the top that is reached and the last
-- frame that is misaligned, 0 if none is.
unfoldable pub walk : (left : ℕ) → (words : ℕ → ℕ) → (r1 misa : ℕ) → ℕ × ℕ
walk zero words r1 misa = (r1, misa)
walk (suc left) words r1 misa =
    let up = walk left words (words r1) (if r1 % 16 == 0 then misa else r1) in
    if words r1 == 0 then (r1, misa) else up

-- What `vec_task_enable` returns: -1, `RTEMS_NO_MEMORY` or 0.
pub data Enabled : Type 0 where
  refused : Enabled
  no_memory : Enabled
  enabled : Enabled

-- Behind the allocation.
unfoldable pub attach_context : ℕ → Machine → Machine
attach_context tcbext s =
    let disabled = disable_dispatch (init_vec_ctxt tcbext s) in
    let attached = set_tcp disabled.executing tcbext disabled in
    let switched = vec_thread_switch attached.executing attached in
    enable_dispatch (set_msr_ve switched)

-- How `vec_task_enable` comes out of its first half: it returns, or goes on with a context.
pub data Allocation : Type 0 where
  returns : Enabled → Machine → Allocation
  continues : (tcbext : ℕ) → Machine → Allocation

abbrev pub after_extalloc : Option (ℕ × Machine) → Option Allocation
after_extalloc none = none
after_extalloc (some (tcbext, s)) =
    if tcbext == 0 then some (returns no_memory s) else some (continues tcbext s)

-- `vec_task_enable` of the task that runs up to the allocation, with the stack pointer `r1`, of what the
-- workspace gives: `none` if an assertion fails.
unfoldable pub allocate_context : (extension_id r1 p : ℕ) → Machine → Option Allocation
allocate_context extension_id r1 p s =
    let (top, misa) = walk 100 s.words r1 0 in
    if extension_id == 0
    then some (returns refused s)
    else if not (s.words top == 0)
    then none
    else if not (top % 16 == 0) || not (misa == 0)
    then some (returns refused s)
    else if s.msr_ve
    then some (returns refused s)
    else after_extalloc (extalloc p s)

abbrev pub after_allocation : Option Allocation → Option (Enabled × Machine)
after_allocation none = none
after_allocation (some (returns r s)) = some (r, s)
after_allocation (some (continues tcbext s)) = some (enabled, attach_context tcbext s)

-- `vec_task_enable` as a whole, when no other task comes in between.
unfoldable pub vec_task_enable : (extension_id r1 p : ℕ) → Machine → Option (Enabled × Machine)
vec_task_enable extension_id r1 p s = after_allocation (allocate_context extension_id r1 p s)

-- The stack pointer is aligned and the word that it points to, the top of the stack, cleared.
unfoldable pub vec_thread_fixup_env : ℕ → Machine → Machine
vec_thread_fixup_env t s =
    let top = s.gpr1 t / 16 * 16 in
    record s {
      saved_ve = put t false s.saved_ve;
      gpr1 = put t top s.gpr1;
      words = put top 0 s.words;
    }

unfoldable pub vec_thread_create : ℕ → Machine → Bool × Machine
vec_thread_create t s = (true, s)

unfoldable pub vec_thread_start : ℕ → Machine → Machine
vec_thread_start t s = vec_thread_fixup_env t s

-- `vec_thread_delete`: the ownership, and the context. The kernel passes the task that runs as
-- `executing`, which is what the assertion asks for.
unfoldable pub disown : ℕ → Machine → Machine
disown deletee s =
    let cleared = if s.executing == deletee then clr_msr_ve s else s in
    if is_owner s.vec_owner deletee then record cleared { vec_owner = none } else s

unfoldable pub release_context : ℕ → Machine → Machine
release_context deletee s =
    let vc = get_tcp s deletee in if vc == 0 then s else set_tcp deletee 0 (extfree vc s)

unfoldable pub vec_thread_delete : ℕ → Machine → Machine
vec_thread_delete deletee s =
    let disowned = disown deletee s in
    release_context deletee (record disowned { saved_ve = put deletee false disowned.saved_ve })

unfoldable pub vec_thread_restart : ℕ → Machine → Machine
vec_thread_restart t s = vec_thread_fixup_env t (vec_thread_delete t s)
