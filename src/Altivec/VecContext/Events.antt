-- ===== src/Altivec/VecContext/Events.antt =====
-- What each event does to the system with the extension of altivec/vec_context.c, and to what the tasks
-- see.
use rtems_ssrl_apps.Prelude.{
  ℕ, ◌≡◌, ◌==◌, ◌∙◌, ap, sym, Bool, true, false, some, if◌then◌else◌, refl, arith, Bool-cases, inl,
  inr,
}
use rtems_ssrl_apps.Altivec.VecRegisters.{VectorUnit, contents}
use rtems_ssrl_apps.Altivec.VecContext.{
  Machine, vec_thread_switch, vec_thread_delete, vec_thread_start, vec_thread_restart,
  vec_thread_fixup_env,
}
use rtems_ssrl_apps.Altivec.VecContext.Tasks.{
  tasks, System, stopped, IsOrdered, Event, IsAccounted, switch, switch_using, use_unit,
  remove_task, start_task, restart_task, Step, allocating, attaching, switching, racing, using,
  removing, starting, restarting, dispatch_to, dispatch_using, context_switch,
}
use rtems_ssrl_apps.Altivec.VecContext.Switch.{vec_thread_switch-IsSwapped}
use rtems_ssrl_apps.Altivec.VecContext.Dispatch.{
  frame-IsAccounted, dispatch_to-IsOrdered, dispatch_to-IsAccounted, tasks-dispatch_to,
  dispatch_to-level, dispatch_using-IsOrdered, dispatch_using-IsAccounted,
}
use rtems_ssrl_apps.Altivec.VecContext.Removal.{
  IsRemoved, vec_thread_delete-IsRemoved, removed-IsOrdered, removed_tasks, fixup-IsOrdered,
  fixup-IsAccounted, fixup_tasks,
}
use rtems_ssrl_apps.Altivec.VecContext.Freed.{removed-IsAccounted}
use rtems_ssrl_apps.Altivec.VecContext.Pending.{kept-IsPending, stopped-IsPending}
use rtems_ssrl_apps.Altivec.VecContext.Effects.{
  IsSound, IsStepped, switches, races, loaded, computes, removes, starts, restarts,
  allocate-IsStepped, attach-IsStepped,
}

tasks-context_switch :
    (heir : ℕ) (s : Machine) (u : ℕ) → tasks (context_switch heir s) u ≡ tasks s u
unfolding tasks
tasks-context_switch heir s u = refl

dispatch-IsStepped :
    (s : System) (heir : ℕ)
    → IsSound s
    → IsStepped (switch heir) s (record s { machine = dispatch_to heir s.machine })
unfolding dispatch_to
dispatch-IsStepped s heir h =
    let m = s.machine in
    let a = h.accounted in
    let w = vec_thread_switch-IsSwapped m heir a in
    record {
      sound = record {
        ordered = dispatch_to-IsOrdered m heir h.ordered a;
        accounted = dispatch_to-IsAccounted m heir a;
        pending =
            kept-IsPending s (dispatch_to heir m) (λ t z. ap (λ f. f t == 0) w.slot ∙ z) h.pending;
      };
      sees = switches heir (tasks-dispatch_to m heir a);
      level = dispatch_to-level m heir a;
      bptrs = λ b l. w.bptrs b;
    }

-- The unit is the owner's; the others' contexts stay as they are.
owner_tasks :
    (s : Machine) (v : VectorUnit) (o : ℕ)
    → s.vec_owner ≡ some o
    → (s.slot o == 0) ≡ false
    → (u : ℕ) → tasks (record s { unit = v }) u ≡ (if u == o then some (contents v) else tasks s u)
unfolding tasks
owner_tasks s v o w z u = elim (Bool-cases (u == o)) [
  | inl x ↦
      let y : o ≡ u = ground arith in
      let k : (o == u) ≡ true = ground arith in
      let n : (s.slot u == 0) ≡ false = ap (λ i. s.slot i == 0) (sym y) ∙ z in rw (x, n, w, k) refl
  | inr x ↦ let k : (o == u) ≡ false = ground arith in rw (x, w, k) refl
]

-- The running task is the owner.
used_tasks :
    (s : Machine) (v : VectorUnit)
    → IsOrdered s
    → s.msr_ve ≡ true
    → (u : ℕ)
    → tasks (record s { unit = v }) u ≡ (if u == s.executing then some (contents v) else tasks s u)
used_tasks s v o e u =
    let w = o.owner_runs e in owner_tasks s v s.executing w (o.owner_holds s.executing w) u

-- Behind the hook the heir is the owner, if it has a context, else still the running task.
loaded-owner :
    (s : Machine) (heir : ℕ)
    → IsOrdered s
    → s.msr_ve ≡ true
    → let o = loaded s.executing heir (tasks s heir) in
      ((if s.slot heir == 0 then s.vec_owner else some heir) ≡ some o) × ((s.slot o == 0) ≡ false)
unfolding tasks
loaded-owner s heir o e = elim (Bool-cases (s.slot heir == 0)) [
  | inl z ↦ let w = o.owner_runs e in rw z (w, o.owner_holds s.executing w)
  | inr z ↦ rw z (refl, z)
]

raced_tasks :
    {loose : ℕ → Bool} (s : Machine) (heir : ℕ) (v : VectorUnit)
    → IsOrdered s
    → IsAccounted loose s
    → s.msr_ve ≡ true
    → (u : ℕ)
    → tasks (dispatch_using heir v s) u
      ≡ (if u == loaded s.executing heir (tasks s heir) then some (contents v) else tasks s u)
unfolding dispatch_using
raced_tasks s heir v o a e u =
    let h = vec_thread_switch heir s in
    let w = vec_thread_switch-IsSwapped s heir a in
    let x = loaded s.executing heir (tasks s heir) in
    let (k, z) = loaded-owner s heir o e in
    let y : (h.slot x == 0) ≡ false = ap (λ f. f x == 0) w.slot ∙ z in
    tasks-context_switch heir (record h { unit = v }) u
    ∙ owner_tasks h v x (w.owner ∙ k) y u
    ∙ ap (λ r. if u == x then some (contents v) else r) (w.same u)

race-IsStepped :
    (s : System) (heir : ℕ) (v : VectorUnit)
    → s.machine.msr_ve ≡ true
    → IsSound s
    → IsStepped (switch_using heir v) s (record s { machine = dispatch_using heir v s.machine })
unfolding dispatch_using
race-IsStepped s heir v e h =
    let m = s.machine in
    let a = h.accounted in
    let w = vec_thread_switch-IsSwapped m heir a in
    record {
      sound = record {
        ordered = dispatch_using-IsOrdered m heir v h.ordered a;
        accounted = dispatch_using-IsAccounted m heir v a;
        pending =
            kept-IsPending s (dispatch_using heir v m) (λ t z. ap (λ f. f t == 0) w.slot ∙ z)
              h.pending;
      };
      sees = races heir v (raced_tasks m heir v h.ordered a e);
      level = w.level;
      bptrs = λ b l. w.bptrs b;
    }

use-IsStepped :
    (s : System) (v : VectorUnit)
    → s.machine.msr_ve ≡ true
    → IsSound s
    → IsStepped (use_unit v) s (record s { machine = record s.machine { unit = v } })
unfolding tasks
use-IsStepped s v e h =
    let o = h.ordered in
    let t = record s.machine { unit = v } in
    record {
      sound = record {
        ordered = record { owner_holds = o.owner_holds; owner_runs = o.owner_runs; mode = o.mode };
        accounted = frame-IsAccounted s.machine t refl refl (λ a z. refl) h.accounted;
        pending = kept-IsPending s t (λ t z. z) h.pending;
      };
      sees = computes v (used_tasks s.machine v o e);
      level = refl;
      bptrs = λ a l. refl;
    }

removed_slot :
    (s t : Machine) (d u : ℕ) → IsRemoved s d t → (s.slot u == 0) ≡ true → (t.slot u == 0) ≡ true
removed_slot s t d u r z = rw (r.slot u) (ground arith)

delete-IsStepped :
    (s : System) (d : ℕ)
    → IsSound s
    → IsStepped (remove_task d) s (stopped d s (vec_thread_delete d s.machine))
delete-IsStepped s d h =
    let m = s.machine in
    let r = vec_thread_delete-IsRemoved m d in
    let t = vec_thread_delete d m in
    record {
      sound = record {
        ordered = removed-IsOrdered m t d r h.ordered;
        accounted = removed-IsAccounted m t d r h.accounted;
        pending = stopped-IsPending s d t (λ u z. removed_slot m t d u r z) h.pending;
      };
      sees = removes d (removed_tasks m t d r);
      level = r.level;
      bptrs = λ a l. ap (λ f. (f a 0).w1) r.buffers;
    }

start-IsStepped :
    (s : System) (d : ℕ)
    → (s.machine.slot d == 0) ≡ true
    → IsSound s
    → IsStepped (start_task d) s (record s { machine = vec_thread_fixup_env d s.machine })
unfolding vec_thread_fixup_env
start-IsStepped s d z h = record {
  sound = record {
    ordered = fixup-IsOrdered s.machine d z h.ordered;
    accounted = fixup-IsAccounted s.machine d h.accounted;
    pending = kept-IsPending s (vec_thread_fixup_env d s.machine) (λ t z. z) h.pending;
  };
  sees = starts d (fixup_tasks s.machine d);
  level = refl;
  bptrs = λ a l. refl;
}

-- Restarting is deleting and starting again.
restart-IsStepped :
    (s : System) (d : ℕ)
    → IsSound s
    → IsStepped (restart_task d) s (stopped d s (vec_thread_restart d s.machine))
unfolding vec_thread_restart
restart-IsStepped s d h =
    let r = vec_thread_delete-IsRemoved s.machine d in
    let t = vec_thread_delete d s.machine in
    let e : (d == d) ≡ true = ground arith in
    let z : t.slot d ≡ 0 = r.slot d ∙ rw e refl in
    let g = delete-IsStepped s d h in
    let f = start-IsStepped (stopped d s t) d (rw z refl) g.sound in
    record {
      sound = f.sound;
      sees = restarts d (λ u. fixup_tasks t d u ∙ removed_tasks s.machine t d r u);
      level = f.level ∙ g.level;
      bptrs = λ a l. f.bptrs a l ∙ g.bptrs a l;
    }

pub Step-IsStepped : {e : Event} {s t : System} → Step e s t → IsSound s → IsStepped e s t
unfolding vec_thread_start
Step-IsStepped {s = s} (allocating {x = x} id r1 p n b e) h = allocate-IsStepped s id r1 p x b e h
Step-IsStepped {s = s} (attaching n) h = attach-IsStepped s n h
Step-IsStepped {s = s} (switching heir) h = dispatch-IsStepped s heir h
Step-IsStepped {s = s} (racing heir u e) h = race-IsStepped s heir u e h
Step-IsStepped {s = s} (using u e) h = use-IsStepped s u e h
Step-IsStepped {s = s} (removing d) h = delete-IsStepped s d h
Step-IsStepped {s = s} (starting d z) h = start-IsStepped s d (rw z refl) h
Step-IsStepped {s = s} (restarting d) h = restart-IsStepped s d h
