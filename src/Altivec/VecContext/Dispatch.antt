-- ===== src/Altivec/VecContext/Dispatch.antt =====
-- A dispatch, and what a task does with the vector unit, keep the order of altivec/vec_context.c.
use rtems_ssrl_apps.Prelude.{ℕ, ◌≡◌, ◌==◌, ◌∙◌, ap, sym, Bool, true, false, inl, inr, arith}
use rtems_ssrl_apps.Altivec.VecRegisters.{VectorUnit}
use rtems_ssrl_apps.Altivec.VecContext.{Machine, put, vec_thread_switch}
use rtems_ssrl_apps.Altivec.VecContext.Tasks.{
  tasks, mem, bptr, IsLive, IsOrdered, IsAccounted, dispatch_to, dispatch_using,
}
use rtems_ssrl_apps.Altivec.VecContext.Switch.{IsSwapped, vec_thread_switch-IsSwapped}

-- The contexts there are stand on the slots, what is said of them on the blocks and the back pointers.
pub frame-IsLive :
    (loose : ℕ → Bool) (s t : Machine) (a : ℕ)
    → t.slot ≡ s.slot
    → IsLive loose t a
    → IsLive loose s a
frame-IsLive loose s t a e (inl (u, z, q)) =
    let f : t.slot u ≡ s.slot u = ap (λ g. g u) e in inl (u, rw⁻¹ f z, sym f ∙ q)
frame-IsLive loose s t a e (inr l) = inr l

pub frame-IsAccounted :
    {loose : ℕ → Bool} (s t : Machine)
    → t.slot ≡ s.slot
    → t.blocks ≡ s.blocks
    → ((vc : ℕ) → (vc == 0) ≡ false → bptr t vc ≡ bptr s vc)
    → IsAccounted loose s
    → IsAccounted loose t
frame-IsAccounted {loose = k} s t e f g a = record {
  distinct = rw e a.distinct;
  loose_apart = rw e a.loose_apart;
  some_context = λ vc l. a.some_context vc (frame-IsLive k s t vc e l);
  held = λ vc l.
      let m = frame-IsLive k s t vc e l in
      let h = a.held vc m in
      let b = g vc (a.some_context vc m) in
      record {
        in_use = rw (b, f) h.in_use;
        word = rw b h.word;
        fits = rw b h.fits;
        line = rw b h.line;
      };
  blocks_apart = rw f a.blocks_apart;
  no_leak = λ p m.
      let n : mem p s.blocks ≡ true = ap (mem p) (sym f) ∙ m in
      let (vc, l, q) = a.no_leak p n in
      (vc, frame-IsLive k t s vc (sym e) l, g vc (a.some_context vc l) ∙ q);
}

exchange-IsOrdered :
    (s t : Machine) (heir : ℕ)
    → IsSwapped s heir t
    → IsOrdered s
    → let saved = put t.executing t.msr_ve t.saved_ve in
      IsOrdered (record t { saved_ve = saved; msr_ve = saved heir; executing = heir })
exchange-IsOrdered s t heir w o = record {
  owner_holds = rw (w.slot, w.owner) (λ v e. ground (arith, o.owner_holds v));
  owner_runs = rw (w.owner, w.executing, w.msr_ve, w.saved_ve) (λ e. ground (arith, o.mode heir));
  mode = λ u. rw (w.slot, w.executing, w.msr_ve, w.saved_ve) (ground (arith, o.mode u));
}

pub dispatch_to-IsOrdered :
    {loose : ℕ → Bool} (s : Machine) (heir : ℕ)
    → IsOrdered s
    → IsAccounted loose s
    → IsOrdered (dispatch_to heir s)
unfolding dispatch_to
dispatch_to-IsOrdered s heir o a =
    exchange-IsOrdered s (vec_thread_switch heir s) heir (vec_thread_switch-IsSwapped s heir a) o

-- What is in the vector unit makes no difference to the order.
pub dispatch_using-IsOrdered :
    {loose : ℕ → Bool} (s : Machine) (heir : ℕ) (u : VectorUnit)
    → IsOrdered s
    → IsAccounted loose s
    → IsOrdered (dispatch_using heir u s)
unfolding dispatch_using
dispatch_using-IsOrdered s heir u o a =
    let w = vec_thread_switch-IsSwapped s heir a in
    let h = exchange-IsOrdered s (vec_thread_switch heir s) heir w o in
    record { owner_holds = h.owner_holds; owner_runs = h.owner_runs; mode = h.mode }

pub dispatch_using-IsAccounted :
    {loose : ℕ → Bool} (s : Machine) (heir : ℕ) (u : VectorUnit)
    → IsAccounted loose s
    → IsAccounted loose (dispatch_using heir u s)
unfolding dispatch_using
dispatch_using-IsAccounted s heir u a =
    let w = vec_thread_switch-IsSwapped s heir a in
    frame-IsAccounted s (dispatch_using heir u s) w.slot w.blocks (λ vc z. w.bptrs vc) a

pub dispatch_to-IsAccounted :
    {loose : ℕ → Bool} (s : Machine) (heir : ℕ)
    → IsAccounted loose s
    → IsAccounted loose (dispatch_to heir s)
unfolding dispatch_to
dispatch_to-IsAccounted s heir a =
    let w = vec_thread_switch-IsSwapped s heir a in
    frame-IsAccounted s (dispatch_to heir s) w.slot w.blocks (λ vc z. w.bptrs vc) a

pub tasks-dispatch_to :
    {loose : ℕ → Bool} (s : Machine) (heir : ℕ)
    → IsAccounted loose s
    → (u : ℕ) → tasks (dispatch_to heir s) u ≡ tasks s u
unfolding dispatch_to tasks
tasks-dispatch_to s heir a u = (vec_thread_switch-IsSwapped s heir a).same u

pub dispatch_to-level :
    {loose : ℕ → Bool} (s : Machine) (heir : ℕ)
    → IsAccounted loose s
    → (dispatch_to heir s).level ≡ s.level
unfolding dispatch_to
dispatch_to-level s heir a = (vec_thread_switch-IsSwapped s heir a).level
