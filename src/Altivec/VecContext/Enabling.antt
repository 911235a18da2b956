-- ===== src/Altivec/VecContext/Enabling.antt =====
-- What the two halves of `vec_task_enable` of altivec/vec_context.c do to the contexts.
use rtems_ssrl_apps.Prelude.{
  ℕ, ◌+◌, ◌-◌, ◌^◌, ◌≡◌, ◌⊎◌, ◌==◌, ap, map, true, false, some, ◌∷◌, if◌then◌else◌, refl, arith,
  Bool-cases, inl, inr,
}
use rtems_ssrl_apps.Altivec.VecRegisters.{Buffer, Contents, saved_contents, upto}
use rtems_ssrl_apps.Altivec.VecContext.{
  Machine, put, store_bptr, init_buffer, set_tcp, set_bptr, init_vec_ctxt, line_up,
  workspace_allocate, extalloc, attach_context, Allocation, returns, continues, refused, no_memory,
  allocate_context, vec_thread_switch, enable_dispatch, disable_dispatch,
}
use rtems_ssrl_apps.Altivec.VecContext.Tasks.{bptr}

-- Behind `extalloc`, of what the workspace gives.
abbrev pub allocated : ℕ → Machine → Machine
allocated p s = enable_dispatch (set_bptr (line_up p) p (workspace_allocate p (disable_dispatch s)))

-- The ways in which the first half ends.
pub allocate-cases :
    (id r1 p : ℕ) (s : Machine) (x : Allocation)
    → allocate_context id r1 p s ≡ some x
    → (x ≡ returns refused s)
      ⊎ ((x ≡ returns no_memory (allocated p s)) × ((line_up p == 0) ≡ true))
      ⊎ ((x ≡ continues (line_up p) (allocated p s))
          × ((line_up p == 0) ≡ false)
          × (s.msr_ve ≡ false))
unfolding allocate_context extalloc
allocate-cases id r1 p s x e = ground arith

-- The machine in which the hook is called.
abbrev pub prepared : ℕ → Machine → Machine
prepared a s = set_tcp s.executing a (disable_dispatch (init_vec_ctxt a s))

pub attach_context-switch :
    (a : ℕ) (s : Machine)
    → attach_context a s
      ≡ enable_dispatch (record (vec_thread_switch s.executing (prepared a s)) { msr_ve = true })
unfolding attach_context set_tcp init_vec_ctxt
attach_context-switch a s = refl

-- What a task with a new context `vc` sees: VRSAVE and VSCR as set, and in the registers whatever the
-- block held.
abbrev pub initial : Machine → ℕ → Contents
initial s vc = record {
  vrsave = 2 ^ 32 - 1;
  vscr = 0;
  vectors = map (λ i. s.buffers vc (i + 2)) (upto 32);
}

-- The block `p` is in use, and its line leads back to it; all else is as before.
pub record IsAllocated (s : Machine) (p : ℕ) (t : Machine) : Type 0 where
  pub slot : t.slot ≡ s.slot
  pub blocks : t.blocks ≡ p ∷ s.blocks
  pub bptrs : (vc : ℕ) → bptr t vc ≡ (if vc == line_up p then p else bptr s vc)
  pub others : (vc : ℕ) → (vc == line_up p) ≡ false → t.buffers vc ≡ s.buffers vc
  pub vec_owner : t.vec_owner ≡ s.vec_owner
  pub msr_ve : t.msr_ve ≡ s.msr_ve
  pub saved_ve : t.saved_ve ≡ s.saved_ve
  pub executing : t.executing ≡ s.executing
  pub level : t.level ≡ s.level
  pub unit : t.unit ≡ s.unit

-- The running task has the context `a`; all else is as before.
pub record IsPrepared (s : Machine) (a : ℕ) (t : Machine) : Type 0 where
  pub slot : (u : ℕ) → t.slot u ≡ (if u == s.executing then a else s.slot u)
  pub blocks : t.blocks ≡ s.blocks
  pub bptrs : (vc : ℕ) → bptr t vc ≡ bptr s vc
  pub vec_owner : t.vec_owner ≡ s.vec_owner
  pub saved_ve : t.saved_ve ≡ s.saved_ve
  pub executing : t.executing ≡ s.executing
  pub level : t.level ≡ s.level + 1
  pub fresh : saved_contents (t.buffers a) ≡ initial s a
  pub others : (vc : ℕ) → (vc == a) ≡ false → t.buffers vc ≡ s.buffers vc
  pub unit : t.unit ≡ s.unit

put_same {ℓ} : {A : Type ℓ} (i : ℕ) (x : A) (f : ℕ → A) → put i x f i ≡ x
put_same i x f = let e : (i == i) ≡ true = ground arith in rw e refl

put_other {ℓ} : {A : Type ℓ} (i j : ℕ) (x : A) (f : ℕ → A) → (j == i) ≡ false → put i x f j ≡ f j
put_other i j x f e = rw e refl

linked_bptr :
    (a p vc : ℕ) (b : ℕ → Buffer)
    → (put a (store_bptr p (b a)) b vc 0).w1 ≡ (if vc == a then p else (b vc 0).w1)
linked_bptr a p vc b = elim (Bool-cases (vc == a)) [ inl e ↦ rw e refl | inr e ↦ rw e refl ]

-- VRSAVE and VSCR are set beside the back pointer.
init_bptr : (a vc : ℕ) (b : ℕ → Buffer) → (put a (init_buffer (b a)) b vc 0).w1 ≡ (b vc 0).w1
init_bptr a vc b = elim (Bool-cases (vc == a)) [
  | inl e ↦ let q : vc ≡ a = ground arith in rw e (ap (λ v. (b v 0).w1) (ground arith))
  | inr e ↦ rw e refl
]

-- What `extalloc` does, when the workspace has given a block.
linked_machine : ℕ → Machine → Machine
linked_machine p s = record s {
  blocks = p ∷ s.blocks;
  buffers = put (line_up p) (store_bptr p (s.buffers (line_up p))) s.buffers;
  level = s.level + 1 - 1;
}

allocated-linked : (s : Machine) (p : ℕ) → (p == 0) ≡ false → allocated p s ≡ linked_machine p s
unfolding set_bptr workspace_allocate linked_machine
allocated-linked s p d = rw d refl

linked-IsAllocated : (s : Machine) (p : ℕ) → IsAllocated s p (linked_machine p s)
unfolding linked_machine
linked-IsAllocated s p = record {
  slot = refl;
  blocks = refl;
  bptrs = λ vc. linked_bptr (line_up p) p vc s.buffers;
  others = λ vc e. put_other (line_up p) vc (store_bptr p (s.buffers (line_up p))) s.buffers e;
  vec_owner = refl;
  msr_ve = refl;
  saved_ve = refl;
  executing = refl;
  level = omega arith;
  unit = refl;
}

pub allocated-IsAllocated :
    (s : Machine) (p : ℕ) → (p == 0) ≡ false → IsAllocated s p (allocated p s)
allocated-IsAllocated s p d = rw (allocated-linked s p d) (linked-IsAllocated s p)

pub prepared-IsPrepared : (s : Machine) (a : ℕ) → IsPrepared s a (prepared a s)
unfolding set_tcp init_vec_ctxt saved_contents
prepared-IsPrepared s a = record {
  slot = λ u. refl;
  blocks = refl;
  bptrs = λ vc. init_bptr a vc s.buffers;
  vec_owner = refl;
  saved_ve = refl;
  executing = refl;
  level = refl;
  fresh = rw (put_same a (init_buffer (s.buffers a)) s.buffers) refl;
  others = λ vc e. put_other a vc (init_buffer (s.buffers a)) s.buffers e;
  unit = refl;
}
