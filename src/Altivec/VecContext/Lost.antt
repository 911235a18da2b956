-- ===== src/Altivec/VecContext/Lost.antt =====
-- A context of altivec/vec_context.c whose task is deleted or restarted inside `vec_task_enable`.
use rtems_ssrl_apps.Prelude.{ℕ, ◌≡◌, ◌⊎◌, ◌==◌, ◌∙◌, true, false, refl, arith, Bool-cases, inl, inr}
use rtems_ssrl_apps.Altivec.VecContext.{
  Machine, put, continues, vec_thread_delete, vec_thread_restart, line_up,
}
use rtems_ssrl_apps.Altivec.VecContext.Tasks.{
  System, remove_task, restart_task, bptr, mem, stopped, allocated_by, attached_by, Event, Step,
  allocating, attaching, switching, racing, using, removing, starting, restarting,
}
use rtems_ssrl_apps.Altivec.VecContext.Enabling.{allocate-cases}
use rtems_ssrl_apps.Altivec.VecContext.Allocated.{fresh_line}
use rtems_ssrl_apps.Altivec.VecContext.Effects.{IsSound, block}
use rtems_ssrl_apps.Altivec.VecContext.Events.{Step-IsStepped}
use rtems_ssrl_apps.Altivec.VecContext.Isolation.{Reach, step, Reach-IsSound}

-- What happens from a state on.
pub data Run : System → System → Type 0 where
  stays : {s : System} → Run s s
  then_step : {e : Event} {s t u : System} → Run s t → Step e t u → Run s u

-- A loose context that no call has.
pub record IsLost (s : System) (a : ℕ) : Type 0 where
  pub some_context : (a == 0) ≡ false
  pub is_loose : s.loose a ≡ true
  pub no_call : (t : ℕ) → (s.tcbext t == a) ≡ false

put_apart :
    (i x j a : ℕ) (f : ℕ → ℕ) → (x == a) ≡ false → (f j == a) ≡ false → (put i x f j == a) ≡ false
put_apart i x j a f n m = elim (Bool-cases (j == i)) [ inl e ↦ rw e n | inr e ↦ rw e m ]

-- A task that is stopped has no call.
stopped-IsLost : (s : System) (d a : ℕ) (m : Machine) → IsLost s a → IsLost (stopped d s m) a
stopped-IsLost s d a m l = record {
  some_context = l.some_context;
  is_loose = l.is_loose;
  no_call = λ t. let z = l.some_context in put_apart d 0 t a s.tcbext (ground arith) (l.no_call t);
}

kept-IsLost : (s : System) (a : ℕ) (m : Machine) → IsLost s a → IsLost (record s { machine = m }) a
kept-IsLost s a m l = record {
  some_context = l.some_context;
  is_loose = l.is_loose;
  no_call = l.no_call;
}

continues-IsLost :
    (s : System) (a b : ℕ) (m : Machine)
    → (b == a) ≡ false
    → IsLost s a
    → IsLost (allocated_by s (continues b m)) a
continues-IsLost s a b m n l = record {
  some_context = l.some_context;
  is_loose = let k = l.is_loose in ground arith;
  no_call = λ t. put_apart s.machine.executing b t a s.tcbext n (l.no_call t);
}

attached-IsLost : (s : System) (a : ℕ) → IsLost s a → IsLost (attached_by s) a
attached-IsLost s a l = record {
  some_context = l.some_context;
  is_loose =
      let n = l.no_call s.machine.executing in
      let m : (a == s.tcbext s.machine.executing) ≡ false = ground arith in rw m l.is_loose;
  no_call = λ t.
      let z = l.some_context in
      put_apart s.machine.executing 0 t a s.tcbext (ground arith) (l.no_call t);
}

Step-IsLost : {e : Event} {s t : System} (a : ℕ) → Step e s t → IsSound s → IsLost s a → IsLost t a
Step-IsLost {s = s} a (allocating {x = x} id r1 p n b e) h l =
    elim (allocate-cases id r1 p s.machine x e) [
      | inl q ↦ rw q (kept-IsLost s a s.machine l)
      | inr (inl (q, z)) ↦ rw q (kept-IsLost s a _ l)
      | inr (inr (q, z, m)) ↦
          let k = block p s.machine.blocks b z in
          let f = fresh_line s.loose s.machine p a k h.accounted (inr l.is_loose) in
          rw q (continues-IsLost s a (line_up p) _ f l)
    ]
Step-IsLost {s = s} a (attaching n) h l = attached-IsLost s a l
Step-IsLost {s = s} a (switching heir) h l = kept-IsLost s a _ l
Step-IsLost {s = s} a (racing heir u e) h l = kept-IsLost s a _ l
Step-IsLost {s = s} a (using u e) h l = kept-IsLost s a _ l
Step-IsLost {s = s} a (removing d) h l = stopped-IsLost s d a _ l
Step-IsLost {s = s} a (starting d z) h l = kept-IsLost s a _ l
Step-IsLost {s = s} a (restarting d) h l = stopped-IsLost s d a _ l

-- Once lost, for good.
Run-IsLost :
    {s t : System} (a : ℕ)
    → Reach s
    → IsLost s a
    → Run s t
    → Reach t × IsLost t a × (bptr t.machine a ≡ bptr s.machine a)
Run-IsLost a r l stays = (r, l, refl)
Run-IsLost a r l (then_step run st) =
    let (q, m, e) = Run-IsLost a r l run in
    let h = Reach-IsSound q in
    let k = Step-IsStepped st h in (step q st, Step-IsLost a st h m, k.bptrs a m.is_loose ∙ e)

-- A call whose task is stopped loses its context.
call-IsLost :
    (s : System) (t : ℕ) (m : Machine)
    → IsSound s
    → (s.tcbext t == 0) ≡ false
    → IsLost (stopped t s m) (s.tcbext t)
call-IsLost s t m h n = record {
  some_context = n;
  is_loose = h.pending.is_loose t n;
  no_call = λ u. elim (Bool-cases (u == t)) [
    | inl e ↦ rw e ground arith
    | inr e ↦ rw e (elim (Bool-cases (s.tcbext u == s.tcbext t)) [
      | inl f ↦
          let q : s.tcbext t ≡ s.tcbext u = ground arith in
          let v = h.pending.own t u n q in ground arith
      | inr f ↦ f
    ])
  ];
}

-- The hook of a task that is deleted or restarted is called.
abbrev pub IsStop : ℕ → Machine → Machine → Type 0
IsStop t s m = (m ≡ vec_thread_delete t s) ⊎ (m ≡ vec_thread_restart t s)

IsStop-Step :
    {s : System} (t : ℕ) {m : Machine}
    → IsStop t s.machine m
    → (e : Event) × Step e s (stopped t s m)
IsStop-Step t (inl q) = (remove_task t, rw q (removing t))
IsStop-Step t (inr q) = (restart_task t, rw q (restarting t))

-- If a task is deleted or restarted between the halves of its call of `vec_task_enable`, the block of the
-- context that the call has stays in use whatever happens from then on, while no task and no call ever
-- has the context again.
pub Run-stopped :
    {s u : System} {m : Machine} (t : ℕ)
    → Reach s
    → (s.tcbext t == 0) ≡ false
    → IsStop t s.machine m
    → Run (stopped t s m) u
    → (mem (bptr s.machine (s.tcbext t)) u.machine.blocks ≡ true)
      × ((v : ℕ)
          → ((u.machine.slot v == s.tcbext t) ≡ false) × ((u.tcbext v == s.tcbext t) ≡ false))
Run-stopped {s = s} {m = m} t r n i run =
    let a = s.tcbext t in
    let h = Reach-IsSound r in
    let (ev, st) = IsStop-Step t i in
    let d = Step-IsStepped st h in
    let l = call-IsLost s t m h n in
    let (q, k, e) = Run-IsLost a (step r st) l run in
    let c = (Reach-IsSound q).accounted in
    let b = e ∙ d.bptrs a l.is_loose in
    (rw⁻¹ b (c.held a (inr k.is_loose)).in_use, λ v. (c.loose_apart a k.is_loose v, k.no_call v))
