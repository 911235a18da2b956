-- ===== src/Altivec/VecContext/Switch.antt =====
-- What `vec_thread_switch` of altivec/vec_context.c keeps.
use rtems_ssrl_apps.Prelude.{
  ℕ, ◌≡◌, ◌==◌, Bool, true, false, none, some, if◌then◌else◌, refl, arith, Bool-cases, Option-cases,
  inl, inr,
}
use rtems_ssrl_apps.Altivec.VecRegisters.Saved.{save_contents, load_contents, save_bptr}
use rtems_ssrl_apps.Altivec.VecContext.{
  Machine, is_owner, get_tcp, save, load, vec_thread_switch, at_context,
}
use rtems_ssrl_apps.Altivec.VecContext.Tasks.{tasks, bptr, IsAccounted}

-- The back pointer of a context stays when a context is saved.
save-bptr : (s : Machine) (vp vc : ℕ) → bptr (save vp s) vc ≡ bptr s vc
unfolding save
save-bptr s vp vc = elim (Bool-cases (vc == vp)) [
  | inl e ↦
      let q : vc ≡ vp = ground arith in
      let same : (vp == vp) ≡ true = ground arith in
      rw (q, bptr, same) (save_bptr (at_context s vp))
  | inr e ↦ rw (e, bptr) refl
]

abbrev pub taken : ℕ → Machine → Machine
taken heir t = record t { vec_owner = some heir }

-- Saving the owner's context keeps what each other task with a context sees in it, and leaves in the
-- owner's what the unit held.
pub record IsSwapped (s : Machine) (heir : ℕ) (t : Machine) : Type 0 where
  pub slot : t.slot ≡ s.slot
  pub blocks : t.blocks ≡ s.blocks
  pub saved_ve : t.saved_ve ≡ s.saved_ve
  pub msr_ve : t.msr_ve ≡ s.msr_ve
  pub executing : t.executing ≡ s.executing
  pub level : t.level ≡ s.level
  pub bptrs : (vc : ℕ) → bptr t vc ≡ bptr s vc
  pub owner : t.vec_owner ≡ (if s.slot heir == 0 then s.vec_owner else some heir)
  pub same : (u : ℕ) → tasks t u ≡ tasks s u

-- The four ways of the hook: nothing to do, the first context, or the owner's for the heir's.
switch_idle : (s : Machine) (heir : ℕ) → (s.slot heir == 0) ≡ true → vec_thread_switch heir s ≡ s
unfolding vec_thread_switch get_tcp
switch_idle s heir e = rw e refl

switch_own :
    (s : Machine) (heir : ℕ) → is_owner s.vec_owner heir ≡ true → vec_thread_switch heir s ≡ s
unfolding vec_thread_switch get_tcp
switch_own s heir e = elim (Bool-cases (s.slot heir == 0)) [
  | inl z ↦ rw (e, z) refl
  | inr z ↦ rw (e, z) refl
]

switch_first :
    (s : Machine) (heir : ℕ)
    → (s.slot heir == 0) ≡ false
    → s.vec_owner ≡ none
    → vec_thread_switch heir s ≡ taken heir (load (s.slot heir) s)
unfolding vec_thread_switch get_tcp load
switch_first s heir z n = rw (z, n) refl

pub switch_swap :
    (s : Machine) (heir w : ℕ)
    → (s.slot heir == 0) ≡ false
    → s.vec_owner ≡ some w
    → (w == heir) ≡ false
    → vec_thread_switch heir s ≡ taken heir (load (s.slot heir) (save (s.slot w) s))
unfolding vec_thread_switch get_tcp load save
switch_swap s heir w z n d = rw (n, d, z) refl

-- The slots stay, and the heir is the owner if it has a context; whatever the contexts are.
pub vec_thread_switch_owner :
    (s : Machine) (heir : ℕ)
    → ((vec_thread_switch heir s).vec_owner ≡ (if s.slot heir == 0 then s.vec_owner else some heir))
      × ((vec_thread_switch heir s).slot ≡ s.slot)
unfolding load save
vec_thread_switch_owner s heir = elim (Bool-cases (s.slot heir == 0)) [
  | inl z ↦ rw (switch_idle s heir z, z) (refl, refl)
  | inr z ↦ elim (Option-cases s.vec_owner) [
    | inl n ↦ rw (switch_first s heir z n, z) (refl, refl)
    | inr (w, h) ↦ elim (Bool-cases (w == heir)) [
      | inl e ↦
          let q : w ≡ heir = ground arith in
          rw (switch_own s heir (rw (h, is_owner) e), z, h, q) (refl, refl)
      | inr e ↦ rw (switch_swap s heir w z h e, z) (refl, refl)
    ]
  ]
]

first_tasks :
    (s : Machine) (heir : ℕ)
    → s.vec_owner ≡ none
    → (u : ℕ) → tasks (taken heir (load (s.slot heir) s)) u ≡ tasks s u
unfolding load tasks
first_tasks s heir n u = elim (Bool-cases (s.slot u == 0)) [
  | inl z ↦ rw z refl
  | inr z ↦ elim (Bool-cases (heir == u)) [
    | inl e ↦
        let q : heir ≡ u = ground arith in
        rw (z, n, e, q, load_contents (at_context s (s.slot u))) refl
    | inr e ↦ rw (z, n, e) refl
  ]
]

pub slots_differ :
    {loose : ℕ → Bool} (s : Machine) (t u : ℕ)
    → IsAccounted loose s
    → (s.slot t == 0) ≡ false
    → (t == u) ≡ false
    → (s.slot t == s.slot u) ≡ false
slots_differ s t u a z d = elim (Bool-cases (s.slot t == s.slot u)) [
  | inl e ↦ let q = a.distinct t u z (ground arith) in ground arith
  | inr e ↦ e
]

swap_tasks :
    {loose : ℕ → Bool} (s : Machine) (heir w : ℕ)
    → s.vec_owner ≡ some w
    → (w == heir) ≡ false
    → IsAccounted loose s
    → (u : ℕ) → tasks (taken heir (load (s.slot heir) (save (s.slot w) s))) u ≡ tasks s u
unfolding load tasks save
swap_tasks s heir w n d a u = elim (Bool-cases (s.slot u == 0)) [
  | inl z ↦ rw z refl
  | inr z ↦ elim (Bool-cases (heir == u)) [
    | inl e ↦
        let q : heir ≡ u = ground arith in
        let d2 : (u == w) ≡ false = ground arith in
        let d3 : (w == u) ≡ false = ground arith in
        let l = slots_differ s u w a z d2 in
        let m = load_contents (at_context (save (s.slot w) s) (s.slot u)) in
        rw (z, n, e, q, d3, m, l) refl
    | inr e ↦ elim (Bool-cases (w == u)) [
      | inl f ↦
          let q : w ≡ u = ground arith in
          let r : (s.slot u == s.slot u) ≡ true = ground arith in
          let v : (u == u) ≡ true = ground arith in
          rw (z, n, e, q, r, v, save_contents (at_context s (s.slot u))) refl
      | inr f ↦
          let d2 : (u == w) ≡ false = ground arith in
          rw (z, n, e, f, slots_differ s u w a z d2) refl
    ]
  ]
]

idle :
    (s : Machine) (heir : ℕ)
    → s.vec_owner ≡ (if s.slot heir == 0 then s.vec_owner else some heir)
    → IsSwapped s heir s
idle s heir e = record {
  slot = refl;
  blocks = refl;
  saved_ve = refl;
  msr_ve = refl;
  executing = refl;
  level = refl;
  bptrs = λ vc. refl;
  owner = e;
  same = λ u. refl;
}

pub vec_thread_switch-IsSwapped :
    {loose : ℕ → Bool} (s : Machine) (heir : ℕ)
    → IsAccounted loose s
    → IsSwapped s heir (vec_thread_switch heir s)
unfolding load save
vec_thread_switch-IsSwapped s heir a = elim (Bool-cases (s.slot heir == 0)) [
  | inl z ↦ rw (switch_idle s heir z) (idle s heir (rw z refl))
  | inr z ↦ elim (Option-cases s.vec_owner) [
    | inl n ↦ rw (switch_first s heir z n) (record {
      slot = refl;
      blocks = refl;
      saved_ve = refl;
      msr_ve = refl;
      executing = refl;
      level = refl;
      bptrs = λ vc. refl;
      owner = rw z refl;
      same = first_tasks s heir n;
    })
    | inr (w, h) ↦ elim (Bool-cases (w == heir)) [
      | inl e ↦
          let q : w ≡ heir = ground arith in
          rw (switch_own s heir (rw (h, is_owner) e)) (idle s heir (rw (z, h, q) refl))
      | inr e ↦ rw (switch_swap s heir w z h e) (record {
        slot = refl;
        blocks = refl;
        saved_ve = refl;
        msr_ve = refl;
        executing = refl;
        level = refl;
        bptrs = save-bptr s (s.slot w);
        owner = rw z refl;
        same = swap_tasks s heir w h e a;
      })
    ]
  ]
]
