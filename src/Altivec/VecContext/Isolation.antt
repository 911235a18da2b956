-- ===== src/Altivec/VecContext/Isolation.antt =====
-- Each task that is enabled has a vector unit of its own, by the extension of altivec/vec_context.c.
use rtems_ssrl_apps.Prelude.{
  if◌then◌else◌, Bool-cases, inl, inr, ℕ, ◌≡◌, ◌==◌, ◌∙◌, ap, sym, true, false, not, none, some, [],
  refl, arith,
}
use rtems_ssrl_apps.Altivec.VecRegisters.{contents}
use rtems_ssrl_apps.Altivec.VecContext.Tasks.{
  tasks, ve, System, IsAccounted, IsPending, mem, Event, Step,
}
use rtems_ssrl_apps.Altivec.VecContext.Attached.{no_context}
use rtems_ssrl_apps.Altivec.VecContext.Effects.{Sees, IsSound}
use rtems_ssrl_apps.Altivec.VecContext.Events.{Step-IsStepped}

-- The system once the extension is installed: no task has a context, no block is in use, and no call of
-- `vec_task_enable` is between its halves.
pub record IsInstalled (s : System) : Type 0 where
  pub no_owner : s.machine.vec_owner ≡ none
  pub no_slots : (t : ℕ) → s.machine.slot t ≡ 0
  pub no_blocks : s.machine.blocks ≡ []
  pub no_ve : s.machine.msr_ve ≡ false
  pub no_saved_ve : (t : ℕ) → s.machine.saved_ve t ≡ false
  pub no_calls : (t : ℕ) → s.tcbext t ≡ 0
  pub no_loose : (a : ℕ) → s.loose a ≡ false

pub data Reach : System → Type 0 where
  installed : {s : System} → IsInstalled s → Reach s
  step : {e : Event} {s t : System} → Reach s → Step e s t → Reach t

installed-IsAccounted : (s : System) → IsInstalled s → IsAccounted s.loose s.machine
installed-IsAccounted s i = record {
  distinct = λ t u z e. ground (arith, i.no_slots t);
  loose_apart = λ a l t. ground (arith, i.no_loose a);
  some_context = λ a l. elim l [
    | inl (t, z, q) ↦ ground (arith, i.no_slots t)
    | inr l ↦ ground (arith, i.no_loose a)
  ];
  held = λ a l. elim l [
    | inl (t, z, q) ↦ (let e = i.no_slots t in ground arith)
    | inr l ↦ (let e = i.no_loose a in ground arith)
  ];
  blocks_apart = rw i.no_blocks refl;
  no_leak = λ p m. (let n : mem p [] ≡ true = ap (mem p) (sym i.no_blocks) ∙ m in ground arith);
}

pub Reach-IsSound : {s : System} → Reach s → IsSound s
Reach-IsSound {s} (installed i) = record {
  ordered = record {
    owner_holds = λ o e. ground (arith, i.no_owner);
    owner_runs = λ e. ground (arith, i.no_ve);
    mode = λ t. rw (i.no_ve, i.no_saved_ve t, i.no_slots t) ground arith;
  };
  accounted = installed-IsAccounted s i;
  pending = record {
    is_loose = λ t n. ground (arith, i.no_calls t);
    no_slot = λ t n. ground (arith, i.no_calls t);
    own = λ t u n q. ground (arith, i.no_calls t);
  };
}
Reach-IsSound (step r st) = (Step-IsStepped st (Reach-IsSound r)).sound

-- Whatever tasks and the kernel do with the extension once it is installed, an event changes the vector
-- unit of the task that it concerns and of no other: a computation sets the running task's as it likes,
-- the second half of `vec_task_enable` attaches one to it, deleting and restarting a task remove its
-- own, and the first half, dispatching and starting change none. But a computation inside a dispatch,
-- behind the hook, sets the heir's and not the executing task's, if the heir has a context. Dispatching is
-- disabled as deep as before.
pub Reach-Isolates :
    {e : Event} {s t : System}
    → Reach s
    → Step e s t
    → Sees s.machine.executing (tasks s.machine) (tasks t.machine) e
      × (t.machine.level ≡ s.machine.level)
Reach-Isolates r st = let k = Step-IsStepped st (Reach-IsSound r) in (k.sees, k.level)

-- In every state that is reached, contexts are not shared, no task has a context that is loose, that is,
-- allocated and not attached yet; a task's or a loose context stands in a block in use, and each block
-- in use is that of a task's or of a loose one; and a call of `vec_task_enable` between its halves has a
-- loose context, which is no other call's, and its task has no other.
pub Reach-IsAccounted : {s : System} → Reach s → IsAccounted s.loose s.machine × IsPending s
Reach-IsAccounted r = let h = Reach-IsSound r in (h.accounted, h.pending)

-- In every state that is reached, a running task sees the values that the vector unit holds if MSR_VE is
-- set, and has no context if it is not; and MSR_VE, in the MSR or saved, is set for the tasks that have
-- a context and no other.
pub Reach-Owned :
    {s : System}
    → Reach s
    → (t : ℕ)
    → (tasks s.machine s.machine.executing
        ≡ (if s.machine.msr_ve then some (contents s.machine.unit) else none))
      × (ve s.machine t ≡ not (s.machine.slot t == 0))
unfolding tasks
Reach-Owned {s} r t =
    let o = (Reach-IsSound r).ordered in
    let m = s.machine in
    (
      elim (Bool-cases m.msr_ve) [
        | inl e ↦
            let w = o.owner_runs e in
            let k : (m.executing == m.executing) ≡ true = ground arith in
            rw (o.owner_holds m.executing w, w, k, e) refl
        | inr e ↦ rw (no_context m o e, e) refl
      ],
      o.mode t,
    )
