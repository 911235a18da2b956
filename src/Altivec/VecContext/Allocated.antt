-- ===== src/Altivec/VecContext/Allocated.antt =====
-- The first half of `vec_task_enable` of altivec/vec_context.c leaves a loose context, and the tasks' as
-- they are.
use rtems_ssrl_apps.Prelude.{
  ℕ, ◌≡◌, ◌==◌, ◌∙◌, ap, sym, Bool, true, false, some, ◌∷◌, refl, arith, Bool-cases, inl, inr,
}
use rtems_ssrl_apps.Altivec.VecContext.{Machine, put, line_up}
use rtems_ssrl_apps.Altivec.VecContext.Tasks.{
  tasks, mem, bptr, IsBlock, IsHeld, IsLive, IsOrdered, IsAccounted,
}
use rtems_ssrl_apps.Altivec.VecContext.Blocks.{line_up-apart, apart-mem}
use rtems_ssrl_apps.Altivec.VecContext.Enabling.{IsAllocated}

pub fresh_line :
    (loose : ℕ → Bool) (s : Machine) (p x : ℕ)
    → IsBlock p s.blocks
    → IsAccounted loose s
    → IsLive loose s x
    → (line_up p == x) ≡ false
fresh_line loose s p x b a l =
    let h = a.held x l in
    let c = apart-mem p (bptr s x) s.blocks b.fresh h.in_use in
    let n = line_up-apart p (bptr s x) b.word h.word b.fits h.fits c in
    ap (λ i. line_up p == i) (sym h.line) ∙ n

-- No task had the new context.
fresh_slot :
    (loose : ℕ → Bool) (s : Machine) (p u : ℕ)
    → IsBlock p s.blocks
    → IsAccounted loose s
    → (line_up p == 0) ≡ false
    → (s.slot u == line_up p) ≡ false
fresh_slot loose s p u b a n = elim (Bool-cases (s.slot u == 0)) [
  | inl z ↦ ground arith
  | inr z ↦ let f = fresh_line loose s p (s.slot u) b a (inl (u, z, refl)) in ground arith
]

-- The contexts there are: the new one and those there were.
older-IsLive :
    (loose : ℕ → Bool) (s t : Machine) (a x : ℕ)
    → t.slot ≡ s.slot
    → (x == a) ≡ false
    → IsLive (put a true loose) t x
    → IsLive loose s x
older-IsLive loose s t a x e n (inl (u, z, q)) =
    let f : t.slot u ≡ s.slot u = ap (λ g. g u) e in inl (u, rw⁻¹ f z, sym f ∙ q)
older-IsLive loose s t a x e n (inr l) = inr (ground arith)

newer-IsLive :
    (loose : ℕ → Bool) (s t : Machine) (a x : ℕ)
    → t.slot ≡ s.slot
    → IsLive loose s x
    → IsLive (put a true loose) t x
newer-IsLive loose s t a x e (inl (u, z, q)) =
    let f : t.slot u ≡ s.slot u = ap (λ g. g u) e in inl (u, rw f z, f ∙ q)
newer-IsLive loose s t a x e (inr l) = inr (ground arith)

allocated_bptr : (s t : Machine) (p : ℕ) → IsAllocated s p t → bptr t (line_up p) ≡ p
allocated_bptr s t p q =
    q.bptrs (line_up p) ∙ (let w : (line_up p == line_up p) ≡ true = ground arith in rw w refl)

allocated-IsHeld :
    (loose : ℕ → Bool) (s t : Machine) (p x : ℕ)
    → IsBlock p s.blocks
    → IsAccounted loose s
    → IsAllocated s p t
    → IsLive (put (line_up p) true loose) t x
    → IsHeld t x
allocated-IsHeld loose s t p x b a q l = elim (Bool-cases (x == line_up p)) [
  | inl e ↦
      let y : x ≡ line_up p = ground arith in
      let f = allocated_bptr s t p q in
      rw y (record {
        in_use = rw (f, q.blocks) (let w : (p == p) ≡ true = ground arith in rw w refl);
        word = rw f b.word;
        fits = rw f b.fits;
        line = rw f refl;
      })
  | inr e ↦
      let f : bptr t x ≡ bptr s x = q.bptrs x ∙ rw e refl in
      let h = a.held x (older-IsLive loose s t (line_up p) x q.slot e l) in
      record {
        in_use = rw (f, q.blocks) (ground (arith, h.in_use));
        word = rw f h.word;
        fits = rw f h.fits;
        line = rw f h.line;
      }
]

allocated_no_leak :
    (loose : ℕ → Bool) (s t : Machine) (p x : ℕ)
    → IsBlock p s.blocks
    → IsAccounted loose s
    → IsAllocated s p t
    → mem x t.blocks ≡ true
    → (y : ℕ) × IsLive (put (line_up p) true loose) t y × (bptr t y ≡ x)
allocated_no_leak loose s t p x b a q m = elim (Bool-cases (p == x)) [
  | inl e ↦
      let v : (line_up p == line_up p) ≡ true = ground arith in
      let y : p ≡ x = ground arith in (line_up p, inr (rw v refl), allocated_bptr s t p q ∙ y)
  | inr e ↦
      let n0 : mem x (p ∷ s.blocks) ≡ true = ap (mem x) (sym q.blocks) ∙ m in
      let (y, l, r) = a.no_leak x (ground arith) in
      let d = fresh_line loose s p y b a l in
      let k : (y == line_up p) ≡ false = ground arith in
      (y, newer-IsLive loose s t (line_up p) y q.slot l, q.bptrs y ∙ rw k r)
]

allocated_apart :
    (loose : ℕ → Bool) (s t : Machine) (p x : ℕ)
    → IsBlock p s.blocks
    → IsAccounted loose s
    → IsAllocated s p t
    → (line_up p == 0) ≡ false
    → put (line_up p) true loose x ≡ true
    → (u : ℕ) → (t.slot u == x) ≡ false
allocated_apart loose s t p x b a q n l u = rw q.slot (elim (Bool-cases (x == line_up p)) [
  | inl e ↦ let f = fresh_slot loose s p u b a n in ground arith
  | inr e ↦ let m : loose x ≡ true = ground arith in a.loose_apart x m u
])

pub allocated-IsAccounted :
    {loose : ℕ → Bool} (s t : Machine) (p : ℕ)
    → IsBlock p s.blocks
    → IsAccounted loose s
    → IsAllocated s p t
    → (line_up p == 0) ≡ false
    → IsAccounted (put (line_up p) true loose) t
allocated-IsAccounted {loose = k} s t p b a q n = record {
  distinct = rw q.slot a.distinct;
  loose_apart = λ x l u. allocated_apart k s t p x b a q n l u;
  some_context = λ x l. elim (Bool-cases (x == line_up p)) [
    | inl e ↦ ground arith
    | inr e ↦ a.some_context x (older-IsLive k s t (line_up p) x q.slot e l)
  ];
  held = λ x l. allocated-IsHeld k s t p x b a q l;
  blocks_apart = rw q.blocks (ground (arith, b.fresh, a.blocks_apart));
  no_leak = λ x m. allocated_no_leak k s t p x b a q m;
}

pub allocated-IsOrdered : (s t : Machine) (p : ℕ) → IsAllocated s p t → IsOrdered s → IsOrdered t
allocated-IsOrdered s t p q o = record {
  owner_holds = λ v e. rw q.slot (o.owner_holds v (sym q.vec_owner ∙ e));
  owner_runs =
      λ e. let w = o.owner_runs (sym q.msr_ve ∙ e) in q.vec_owner ∙ w ∙ ap some (sym q.executing);
  mode = λ u. rw (q.executing, q.slot, q.saved_ve, q.msr_ve) (o.mode u);
}

pub allocated_tasks :
    {loose : ℕ → Bool} (s t : Machine) (p : ℕ)
    → IsBlock p s.blocks
    → IsAccounted loose s
    → IsAllocated s p t
    → (line_up p == 0) ≡ false
    → (u : ℕ) → tasks t u ≡ tasks s u
unfolding tasks
allocated_tasks {loose = k} s t p b a q n u =
    let d = fresh_slot k s p u b a n in rw (q.slot, q.unit, q.others (s.slot u) d, q.vec_owner) refl
