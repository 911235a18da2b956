-- ===== src/Altivec/VecContext/Attached.antt =====
-- The context that `vec_task_enable` of altivec/vec_context.c attaches is the task's own.
use rtems_ssrl_apps.Prelude.{
  ℕ, ◌≡◌, ◌==◌, ◌∙◌, ap, Bool, true, false, some, if◌then◌else◌, refl, arith, inr,
}
use rtems_ssrl_apps.Altivec.VecContext.{
  Machine, put, attach_context, vec_thread_switch, enable_dispatch,
}
use rtems_ssrl_apps.Altivec.VecContext.Tasks.{tasks, bptr, IsOrdered, IsAccounted}
use rtems_ssrl_apps.Altivec.VecContext.Switch.{IsSwapped, vec_thread_switch-IsSwapped}
use rtems_ssrl_apps.Altivec.VecContext.Dispatch.{frame-IsAccounted}
use rtems_ssrl_apps.Altivec.VecContext.Enabling.{
  IsPrepared, prepared-IsPrepared, prepared, attach_context-switch, initial,
}
use rtems_ssrl_apps.Altivec.VecContext.Prepared.{prepared_own, prepared-IsAccounted, prepared_tasks}

-- What `attach_context` leaves.
pub record IsAttached (loose : ℕ → Bool) (s : Machine) (a : ℕ) (t : Machine) : Type 0 where
  pub ordered : IsOrdered t
  pub accounted : IsAccounted (put a false loose) t
  pub seen : (u : ℕ) → tasks t u ≡ (if u == s.executing then some (initial s a) else tasks s u)
  pub slot : (u : ℕ) → t.slot u ≡ (if u == s.executing then a else s.slot u)
  pub bptrs : (x : ℕ) → bptr t x ≡ bptr s x
  pub level : t.level ≡ s.level

switched-IsOrdered :
    (s t y : Machine) (a : ℕ)
    → IsOrdered s
    → IsPrepared s a t
    → IsSwapped t s.executing y
    → (a == 0) ≡ false
    → IsOrdered (enable_dispatch (record y { msr_ve = true }))
switched-IsOrdered s t y a o q w l =
    let g = prepared_own s t a q in
    let n : y.vec_owner ≡ some s.executing = w.owner ∙ rw (g, l) refl in
    let x : y.executing ≡ s.executing = w.executing ∙ q.executing in
    record {
      owner_holds = λ u e. let k : s.executing ≡ u = ground arith in rw⁻¹ k (rw (w.slot, g) l);
      owner_runs = λ e. rw x n;
      mode = λ u. rw (x, w.slot, w.saved_ve, q.slot u, q.saved_ve) (ground (arith, o.mode u));
    }

switched-IsAttached :
    (loose : ℕ → Bool) (s t : Machine) (a : ℕ)
    → IsOrdered s
    → IsAccounted loose s
    → IsPrepared s a t
    → loose a ≡ true
    → (s.slot s.executing == 0) ≡ true
    → IsAttached loose s a
        (enable_dispatch (record (vec_thread_switch s.executing t) { msr_ve = true }))
unfolding tasks
switched-IsAttached loose s t a o c q l z =
    let d = prepared-IsAccounted loose s t a c q l z in
    let w = vec_thread_switch-IsSwapped t s.executing d in
    let y = enable_dispatch (record (vec_thread_switch s.executing t) { msr_ve = true }) in
    record {
      ordered =
          switched-IsOrdered s t (vec_thread_switch s.executing t) a o q w
            (c.some_context a (inr l));
      accounted = frame-IsAccounted t y w.slot w.blocks (λ vc n. w.bptrs vc) d;
      seen = λ u. w.same u ∙ prepared_tasks loose s t a o c q l z u;
      slot = λ u. ap (λ f. f u) w.slot ∙ q.slot u;
      bptrs = λ x. w.bptrs x ∙ q.bptrs x;
      level = let e = w.level ∙ q.level in omega arith;
    }

-- The task that runs without MSR_VE has no context.
pub no_context : (s : Machine) → IsOrdered s → s.msr_ve ≡ false → (s.slot s.executing == 0) ≡ true
no_context s o e = ground (arith, o.mode s.executing)

pub attach_context-IsAttached :
    {loose : ℕ → Bool} (s : Machine) (a : ℕ)
    → IsOrdered s
    → IsAccounted loose s
    → loose a ≡ true
    → (s.slot s.executing == 0) ≡ true
    → IsAttached loose s a (attach_context a s)
attach_context-IsAttached {loose = k} s a o c l z =
    rw (attach_context-switch a s)
      (switched-IsAttached k s (prepared a s) a o c (prepared-IsPrepared s a) l z)
