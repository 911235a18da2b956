-- ===== src/Altivec/VecContext/Removal.antt =====
-- What deleting, starting and restarting a task do to the contexts of altivec/vec_context.c.
use rtems_ssrl_apps.Prelude.{
  ℕ, ◌≡◌, ◌&&◌, ◌==◌, ◌∙◌, sym, Bool, true, false, Option, none, some, if◌then◌else◌, refl, arith,
  Bool-cases, Option-cases, inl, inr,
}
use rtems_ssrl_apps.Altivec.VecContext.{
  Machine, put, is_owner, disown, release_context, get_tcp, set_tcp, clr_msr_ve, extfree, remove,
  vec_thread_delete, vec_thread_fixup_env,
}
use rtems_ssrl_apps.Altivec.VecContext.Tasks.{tasks, bptr, IsOrdered, IsAccounted}
use rtems_ssrl_apps.Altivec.VecContext.Dispatch.{frame-IsAccounted}

-- Task `d` has lost its context, its block and its ownership; all else is as before.
pub record IsRemoved (s : Machine) (d : ℕ) (t : Machine) : Type 0 where
  pub slot : (u : ℕ) → t.slot u ≡ (if u == d then 0 else s.slot u)
  pub buffers : t.buffers ≡ s.buffers
  pub unit : t.unit ≡ s.unit
  pub executing : t.executing ≡ s.executing
  pub level : t.level ≡ s.level
  pub owner : t.vec_owner ≡ (if is_owner s.vec_owner d then none else s.vec_owner)
  pub msr_ve : t.msr_ve ≡ (if is_owner s.vec_owner d && (s.executing == d) then false else s.msr_ve)
  pub saved_ve : t.saved_ve ≡ put d false s.saved_ve
  pub blocks : t.blocks ≡ (if s.slot d == 0 then s.blocks else remove (bptr s (s.slot d)) s.blocks)

no_slot : (f : ℕ → ℕ) (d u : ℕ) → (f d == 0) ≡ true → f u ≡ (if u == d then 0 else f u)
no_slot f d u z = elim (Bool-cases (u == d)) [
  | inl e ↦ let q : u ≡ d = ground arith in ground arith
  | inr e ↦ rw e refl
]

-- The machine between the two halves of `vec_thread_delete`.
abbrev pub masked : Machine → ℕ → Machine
masked s d = record s {
  vec_owner = if is_owner s.vec_owner d then none else s.vec_owner;
  msr_ve = if is_owner s.vec_owner d && (s.executing == d) then false else s.msr_ve;
  saved_ve = put d false s.saved_ve;
}

pub disowned :
    (s : Machine) (d : ℕ)
    → record (disown d s) { saved_ve = put d false (disown d s).saved_ve } ≡ masked s d
unfolding disown clr_msr_ve
disowned s d = elim (Bool-cases (is_owner s.vec_owner d)) [
  | inl o ↦ elim (Bool-cases (s.executing == d)) [ inl x ↦ rw (o, x) refl | inr x ↦ rw (o, x) refl ]
  | inr o ↦ rw o refl
]

release_context-IsRemoved : (s : Machine) (d : ℕ) → IsRemoved s d (release_context d (masked s d))
unfolding release_context set_tcp extfree get_tcp
release_context-IsRemoved s d = elim (Bool-cases (s.slot d == 0)) [
  | inl z ↦ rw z (record {
    slot = λ u. no_slot s.slot d u z;
    buffers = refl;
    unit = refl;
    executing = refl;
    level = refl;
    owner = refl;
    msr_ve = refl;
    saved_ve = refl;
    blocks = rw z refl;
  })
  | inr z ↦ rw z (record {
    slot = λ u. refl;
    buffers = refl;
    unit = refl;
    executing = refl;
    level = omega arith;
    owner = refl;
    msr_ve = refl;
    saved_ve = refl;
    blocks = rw z refl;
  })
]

pub vec_thread_delete-IsRemoved : (s : Machine) (d : ℕ) → IsRemoved s d (vec_thread_delete d s)
unfolding vec_thread_delete
vec_thread_delete-IsRemoved s d = rw (disowned s d) (release_context-IsRemoved s d)

pub removed-IsOrdered : (s t : Machine) (d : ℕ) → IsRemoved s d t → IsOrdered s → IsOrdered t
removed-IsOrdered s t d r o = elim (Option-cases s.vec_owner) [
  | inl n ↦
      let a : t.vec_owner ≡ none = r.owner ∙ rw (n, is_owner) refl in
      let m : t.msr_ve ≡ s.msr_ve = r.msr_ve ∙ rw (n, is_owner) refl in
      record {
        owner_holds = λ v e. ground arith;
        owner_runs = λ e. ground arith;
        mode = λ u. rw (r.slot u, r.executing, m, r.saved_ve) (ground (arith, o.mode u));
      }
  | inr (w, h) ↦
      let a : t.vec_owner ≡ (if w == d then none else some w) = r.owner ∙ rw (h, is_owner) refl in
      let m : t.msr_ve ≡ (if (w == d) && (s.executing == d) then false else s.msr_ve) =
        r.msr_ve ∙ rw (h, is_owner) refl in
      record {
        owner_holds = λ v e. rw (r.slot v) (ground (arith, o.owner_holds v));
        owner_runs = λ e.
            let x : s.msr_ve ≡ true = ground arith in
            let y : w ≡ s.executing = ground (arith, sym h ∙ o.owner_runs x) in
            ground (arith, r.executing);
        mode = λ u. rw (r.slot u, r.executing, m, r.saved_ve) (ground (arith, o.mode u));
      }
]

still_owner :
    (o : Option ℕ) (d u : ℕ)
    → (u == d) ≡ false
    → is_owner (if is_owner o d then none else o) u ≡ is_owner o u
still_owner none d u e = refl
still_owner (some w) d u e = elim (Bool-cases (w == d)) [ inl f ↦ ground arith | inr f ↦ rw f refl ]

pub removed_tasks :
    (s t : Machine) (d : ℕ)
    → IsRemoved s d t
    → (u : ℕ) → tasks t u ≡ (if u == d then none else tasks s u)
unfolding tasks
removed_tasks s t d r u = elim (Bool-cases (u == d)) [
  | inl e ↦ rw (r.slot u, e) refl
  | inr e ↦ rw (r.slot u, r.buffers, r.unit, e, r.owner, still_owner s.vec_owner d u e) refl
]

-- A task without a context is started.
pub fixup-IsOrdered :
    (s : Machine) (d : ℕ)
    → (s.slot d == 0) ≡ true
    → IsOrdered s
    → IsOrdered (vec_thread_fixup_env d s)
unfolding vec_thread_fixup_env
fixup-IsOrdered s d z o = record {
  owner_holds = o.owner_holds;
  owner_runs = o.owner_runs;
  mode = λ u. ground (arith, o.mode u);
}

pub fixup-IsAccounted :
    {loose : ℕ → Bool} (s : Machine) (d : ℕ)
    → IsAccounted loose s
    → IsAccounted loose (vec_thread_fixup_env d s)
unfolding vec_thread_fixup_env
fixup-IsAccounted s d a = frame-IsAccounted s (vec_thread_fixup_env d s) refl refl (λ vc z. refl) a

pub fixup_tasks : (s : Machine) (d u : ℕ) → tasks (vec_thread_fixup_env d s) u ≡ tasks s u
unfolding vec_thread_fixup_env tasks
fixup_tasks s d u = refl
