-- ===== src/Altivec/VecContext/Deleting.antt =====
-- A task that deletes itself, with a dispatch inside `vec_thread_delete` of altivec/vec_context.c.
use rtems_ssrl_apps.Prelude.{ℕ, ◌≡◌, ◌==◌, ◌∙◌, ap, true, false, some, refl, arith}
use rtems_ssrl_apps.Altivec.VecContext.{
  Machine, put, disown, release_context, get_tcp, set_tcp, extfree, load, save, vec_thread_switch,
  vec_thread_delete,
}
use rtems_ssrl_apps.Altivec.VecContext.Tasks.{dispatch_to}
use rtems_ssrl_apps.Altivec.VecContext.Removal.{masked, disowned}
use rtems_ssrl_apps.Altivec.VecContext.Switch.{taken, switch_swap, vec_thread_switch_owner}

-- `vec_thread_delete` of a task with a context, until `extfree` returns. That has enabled dispatching
-- again, and the slot still has the context.
unfoldable pub freed : ℕ → Machine → Machine
freed d s =
    let disowned = disown d s in
    extfree (get_tcp s d) (record disowned { saved_ve = put d false disowned.saved_ve })

freed-masked : (s : Machine) (d : ℕ) → freed d s ≡ extfree (s.slot d) (masked s d)
unfolding freed get_tcp
freed-masked s d = ap (extfree (s.slot d)) (disowned s d)

vec_thread_delete-freed :
    (s : Machine) (d : ℕ)
    → (s.slot d == 0) ≡ false
    → vec_thread_delete d s ≡ set_tcp d 0 (freed d s)
unfolding vec_thread_delete release_context get_tcp
vec_thread_delete-freed s d z = rw (freed-masked s d, disowned s d, z) refl

freed_slot : (s : Machine) (d : ℕ) → (freed d s).slot ≡ s.slot
unfolding extfree
freed_slot s d = rw (freed-masked s d) refl

-- The kernel's dispatcher, to another task and back.
abbrev pub away_and_back : (u d : ℕ) → Machine → Machine
away_and_back u d s = dispatch_to d (dispatch_to u s)

dispatched_slot : (s : Machine) (h : ℕ) → (dispatch_to h s).slot ≡ s.slot
unfolding dispatch_to
dispatched_slot s h = (vec_thread_switch_owner s h).1

dispatched_owner :
    (s : Machine) (h : ℕ) → (s.slot h == 0) ≡ false → (dispatch_to h s).vec_owner ≡ some h
unfolding dispatch_to
dispatched_owner s h z = (vec_thread_switch_owner s h).0 ∙ rw z refl

back_slot : (s : Machine) (u d : ℕ) → (away_and_back u d (freed d s)).slot ≡ s.slot
back_slot s u d =
    dispatched_slot (dispatch_to u (freed d s)) d ∙ dispatched_slot (freed d s) u ∙ freed_slot s d

back_owner :
    (s : Machine) (u d : ℕ)
    → (s.slot d == 0) ≡ false
    → (away_and_back u d (freed d s)).vec_owner ≡ some d
back_owner s u d z =
    let e = dispatched_slot (freed d s) u ∙ freed_slot s d in
    dispatched_owner (dispatch_to u (freed d s)) d (ap (λ f. f d == 0) e ∙ z)

-- `vec_thread_delete` of a task `d` with a context ends by clearing the slot once `extfree` has freed the
-- context and enabled dispatching. If the kernel dispatches another task and then `d` again in between,
-- `d` owns the vector unit at the end and has no context; and when another task with a context is
-- dispatched next, the registers are saved in the buffer at address 0.
pub vec_thread_delete-Dangles :
    (s : Machine) (d u h : ℕ)
    → (s.slot d == 0) ≡ false
    → (s.slot h == 0) ≡ false
    → (h == d) ≡ false
    → let t = set_tcp d 0 (away_and_back u d (freed d s)) in
      (vec_thread_delete d s ≡ set_tcp d 0 (freed d s))
      × (t.vec_owner ≡ some d)
      × (t.slot d ≡ 0)
      × (vec_thread_switch h t ≡ taken h (load (s.slot h) (save 0 t)))
unfolding set_tcp
vec_thread_delete-Dangles s d u h z y n =
    let x = away_and_back u d (freed d s) in
    let t = set_tcp d 0 x in
    let v : (d == d) ≡ true = ground arith in
    let o : t.vec_owner ≡ some d = back_owner s u d z in
    let a : t.slot d ≡ 0 = rw v refl in
    let b : t.slot h ≡ s.slot h = rw (n, back_slot s u d) refl in
    let m : (d == h) ≡ false = ground arith in
    let c = switch_swap t h d (rw b y) o m in
    (
      vec_thread_delete-freed s d z,
      o,
      a,
      c
          ∙ ap (λ i. taken h (load (t.slot h) (save i t))) a
          ∙ ap (λ i. taken h (load i (save 0 t))) b,
    )
