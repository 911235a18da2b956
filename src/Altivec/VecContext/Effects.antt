-- ===== src/Altivec/VecContext/Effects.antt =====
-- What the halves of `vec_task_enable` of altivec/vec_context.c do to the system, and to what the tasks
-- see.
use rtems_ssrl_apps.Prelude.{
  ℕ, ◌-◌, ◌^◌, ◌≡◌, ◌⊎◌, ◌==◌, ◌∙◌, true, false, Option, none, some, List, if◌then◌else◌, refl,
  arith, Bool-cases, inl, inr,
}
use rtems_ssrl_apps.Altivec.VecRegisters.{Vec, VectorUnit, Contents, contents}
use rtems_ssrl_apps.Altivec.VecContext.{
  Allocation, continues, allocate_context, line_up, workspace_allocate, set_bptr,
}
use rtems_ssrl_apps.Altivec.VecContext.Tasks.{
  tasks, bptr, System, allocated_by, attached_by, IsBlock, IsOrdered, IsAccounted, IsPending, Event,
  allocate, attach, switch, switch_using, use_unit, remove_task, start_task, restart_task,
}
use rtems_ssrl_apps.Altivec.VecContext.Dispatch.{frame-IsAccounted}
use rtems_ssrl_apps.Altivec.VecContext.Enabling.{
  allocate-cases, allocated, initial, allocated-IsAllocated,
}
use rtems_ssrl_apps.Altivec.VecContext.Allocated.{
  fresh_line, allocated-IsAccounted, allocated-IsOrdered, allocated_tasks,
}
use rtems_ssrl_apps.Altivec.VecContext.Attached.{attach_context-IsAttached, no_context}
use rtems_ssrl_apps.Altivec.VecContext.Pending.{
  kept-IsPending, allocated-IsPending, attached-IsPending,
}

-- Behind the hook of a dispatch, the registers are those of the heir if it has a context.
abbrev pub loaded : (x heir : ℕ) → Option Contents → ℕ
loaded x heir none = x
loaded x heir (some c) = heir

-- What an event may do to the units that the tasks see, from `before` to `after`, while `x` runs. A
-- task that gets a context finds VRSAVE all set, VSCR clear and something in the registers.
pub data Sees (x : ℕ) (before after : ℕ → Option Contents) : Event → Type 0 where
  allocates : ((u : ℕ) → after u ≡ before u) → Sees x before after allocate
  attaches :
      (vectors : List Vec)
      → before x ≡ none
      → ((u : ℕ)
          → after u ≡ (
              if u == x
              then some (record { vrsave = 2 ^ 32 - 1; vscr = 0; vectors = vectors })
              else before u))
      → Sees x before after attach
  switches : (heir : ℕ) → ((u : ℕ) → after u ≡ before u) → Sees x before after (switch heir)
  races :
      (heir : ℕ) (v : VectorUnit)
      → ((u : ℕ)
          → after u ≡ (if u == loaded x heir (before heir) then some (contents v) else before u))
      → Sees x before after (switch_using heir v)
  computes :
      (v : VectorUnit)
      → ((u : ℕ) → after u ≡ (if u == x then some (contents v) else before u))
      → Sees x before after (use_unit v)
  removes :
      (d : ℕ)
      → ((u : ℕ) → after u ≡ (if u == d then none else before u))
      → Sees x before after (remove_task d)
  starts : (d : ℕ) → ((u : ℕ) → after u ≡ before u) → Sees x before after (start_task d)
  restarts :
      (d : ℕ)
      → ((u : ℕ) → after u ≡ (if u == d then none else before u))
      → Sees x before after (restart_task d)

-- What holds of the system in order.
pub record IsSound (s : System) : Type 0 where
  pub ordered : IsOrdered s.machine
  pub accounted : IsAccounted s.loose s.machine
  pub pending : IsPending s

-- What a step from a sound system leaves.
pub record IsStepped (e : Event) (s t : System) : Type 0 where
  pub sound : IsSound t
  pub sees : Sees s.machine.executing (tasks s.machine) (tasks t.machine) e
  pub level : t.machine.level ≡ s.machine.level
  pub bptrs : (a : ℕ) → s.loose a ≡ true → bptr t.machine a ≡ bptr s.machine a

-- Without memory: only the first bytes of memory have changed.
no_memory-IsStepped :
    (s : System) → IsSound s → IsStepped allocate s (record s { machine = allocated 0 s.machine })
unfolding workspace_allocate set_bptr tasks
no_memory-IsStepped s h =
    let o = h.ordered in
    record {
      sound = record {
        ordered = record { owner_holds = o.owner_holds; owner_runs = o.owner_runs; mode = o.mode };
        accounted =
            frame-IsAccounted s.machine (allocated 0 s.machine) refl refl (λ a z. rw (z, bptr) refl)
              h.accounted;
        pending = kept-IsPending s (allocated 0 s.machine) (λ t z. z) h.pending;
      };
      sees = allocates (λ u. elim (Bool-cases (s.machine.slot u == 0)) [
        | inl z ↦ rw z refl
        | inr z ↦ rw z refl
      ]);
      level = omega arith;
      bptrs = λ a l. rw (h.accounted.some_context a (inr l), bptr) refl;
    }

continues-IsStepped :
    (s : System) (p : ℕ)
    → IsBlock p s.machine.blocks
    → (line_up p == 0) ≡ false
    → s.machine.msr_ve ≡ false
    → IsSound s
    → IsStepped allocate s (allocated_by s (continues (line_up p) (allocated p s.machine)))
continues-IsStepped s p b n e h =
    let m = s.machine in
    let t = allocated p m in
    let q = allocated-IsAllocated m p (ground arith) in
    let f : (a : ℕ) → s.loose a ≡ true → (line_up p == a) ≡ false =
      (λ a l. fresh_line s.loose m p a b h.accounted (inr l)) in
    record {
      sound = record {
        ordered = allocated-IsOrdered m t p q h.ordered;
        accounted = allocated-IsAccounted m t p b h.accounted q n;
        pending = allocated-IsPending s (line_up p) t q.slot (no_context m h.ordered e) f h.pending;
      };
      sees = allocates (allocated_tasks m t p b h.accounted q n);
      level = q.level;
      bptrs = λ a l.
          let g = f a l in let k : (a == line_up p) ≡ false = ground arith in q.bptrs a ∙ rw k refl;
    }

-- What the workspace has given is told by the line in it.
no_block : (p : ℕ) (ps : List ℕ) → (p ≡ 0) ⊎ IsBlock p ps → (line_up p == 0) ≡ true → p ≡ 0
no_block p ps (inl e) z = e
no_block p ps (inr b) z = let w = b.word in let f = b.fits in ground arith

pub block : (p : ℕ) (ps : List ℕ) → (p ≡ 0) ⊎ IsBlock p ps → (line_up p == 0) ≡ false → IsBlock p ps
block p ps (inl e) z = ground arith
block p ps (inr b) z = b

pub allocate-IsStepped :
    (s : System) (id r1 p : ℕ) (x : Allocation)
    → (p ≡ 0) ⊎ IsBlock p s.machine.blocks
    → allocate_context id r1 p s.machine ≡ some x
    → IsSound s
    → IsStepped allocate s (allocated_by s x)
allocate-IsStepped s id r1 p x b e h = elim (allocate-cases id r1 p s.machine x e) [
  | inl q ↦
      rw q (record { sound = h; sees = allocates (λ u. refl); level = refl; bptrs = λ a l. refl })
  | inr (inl (q, z)) ↦ rw (q, no_block p s.machine.blocks b z) (no_memory-IsStepped s h)
  | inr (inr (q, z, m)) ↦ rw q (continues-IsStepped s p (block p s.machine.blocks b z) z m h)
]

pub attach-IsStepped :
    (s : System)
    → (s.tcbext s.machine.executing == 0) ≡ false
    → IsSound s
    → IsStepped attach s (attached_by s)
unfolding tasks
attach-IsStepped s n h =
    let m = s.machine in
    let x = m.executing in
    let a = s.tcbext x in
    let z = h.pending.no_slot x n in
    let q = attach_context-IsAttached m a h.ordered h.accounted (h.pending.is_loose x n) z in
    record {
      sound = record {
        ordered = q.ordered;
        accounted = q.accounted;
        pending = attached-IsPending s n q h.pending;
      };
      sees = attaches (initial m a).vectors (rw z refl) q.seen;
      level = q.level;
      bptrs = λ b l. q.bptrs b;
    }
