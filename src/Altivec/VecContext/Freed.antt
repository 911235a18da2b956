-- ===== src/Altivec/VecContext/Freed.antt =====
-- A task that is deleted gives up its block, and no other, of the contexts of altivec/vec_context.c.
use rtems_ssrl_apps.Prelude.{
  ℕ, ◌≡◌, ◌==◌, ◌∙◌, ap, sym, Bool, true, false, refl, arith, Bool-cases, inl, inr,
}
use rtems_ssrl_apps.Altivec.VecContext.{Machine, line_up, remove}
use rtems_ssrl_apps.Altivec.VecContext.Tasks.{mem, bptr, IsLive, IsAccounted}
use rtems_ssrl_apps.Altivec.VecContext.Blocks.{
  mem-remove, remove_keeps, pairwise-remove, remove_gone,
}
use rtems_ssrl_apps.Altivec.VecContext.Removal.{IsRemoved}

-- A context is told from the others by its back pointer.
pub bptrs_differ :
    (loose : ℕ → Bool) (s : Machine) (x y : ℕ)
    → IsAccounted loose s
    → IsLive loose s x
    → IsLive loose s y
    → (x == y) ≡ false
    → (bptr s x == bptr s y) ≡ false
bptrs_differ loose s x y a l m n = elim (Bool-cases (bptr s x == bptr s y)) [
  | inl e ↦
      let q : bptr s x ≡ bptr s y = ground arith in
      let r : x ≡ y = sym (a.held x l).line ∙ ap line_up q ∙ (a.held y m).line in ground arith
  | inr e ↦ e
]

-- A context that there still is was one before, and not the one of `d`.
kept-IsLive :
    (loose : ℕ → Bool) (s t : Machine) (d x : ℕ)
    → IsRemoved s d t
    → IsAccounted loose s
    → IsLive loose t x
    → IsLive loose s x × ((s.slot d == x) ≡ false)
kept-IsLive loose s t d x r a (inr l) = (inr l, a.loose_apart x l d)
kept-IsLive loose s t d x r a (inl (u, z, q)) = elim (Bool-cases (u == d)) [
  | inl e ↦ ground (arith, r.slot u)
  | inr e ↦
      let k : t.slot u ≡ s.slot u = r.slot u ∙ rw e refl in
      let y : (s.slot u == 0) ≡ false = rw⁻¹ k z in
      let f : s.slot u ≡ x = sym k ∙ q in
      (
        inl (u, y, f),
        elim (Bool-cases (s.slot d == x)) [
          | inl g ↦
              let h : s.slot u ≡ s.slot d = ground arith in
              let v = a.distinct u d y h in ground arith
          | inr g ↦ g
        ],
      )
]

still-IsLive :
    (loose : ℕ → Bool) (s t : Machine) (d x : ℕ)
    → IsRemoved s d t
    → IsLive loose s x
    → (s.slot d == x) ≡ false
    → IsLive loose t x
still-IsLive loose s t d x r (inr l) n = inr l
still-IsLive loose s t d x r (inl (u, z, q)) n = elim (Bool-cases (u == d)) [
  | inl e ↦ let v : d ≡ u = ground arith in let f : s.slot d ≡ x = ap s.slot v ∙ q in ground arith
  | inr e ↦ let k : t.slot u ≡ s.slot u = r.slot u ∙ rw e refl in inl (u, rw k z, k ∙ q)
]

kept_bptr : (s t : Machine) (d vc : ℕ) → IsRemoved s d t → bptr t vc ≡ bptr s vc
kept_bptr s t d vc r = ap (λ f. (f vc 0).w1) r.buffers

removed_in_use :
    (loose : ℕ → Bool) (s t : Machine) (d x : ℕ)
    → IsRemoved s d t
    → IsAccounted loose s
    → IsLive loose s x
    → (s.slot d == x) ≡ false
    → mem (bptr s x) t.blocks ≡ true
removed_in_use loose s t d x r a l n = elim (Bool-cases (s.slot d == 0)) [
  | inl y ↦ rw (r.blocks, y) (a.held x l).in_use
  | inr y ↦
      let m : (x == s.slot d) ≡ false = ground arith in
      let b = bptrs_differ loose s x (s.slot d) a l (inl (d, y, refl)) m in
      rw (r.blocks, y) (remove_keeps (bptr s x) (bptr s (s.slot d)) s.blocks b (a.held x l).in_use)
]

-- A block that is still in use is not the one of `d`.
removed_no_leak :
    (loose : ℕ → Bool) (s t : Machine) (d p : ℕ)
    → IsRemoved s d t
    → IsAccounted loose s
    → mem p t.blocks ≡ true
    → (x : ℕ) × IsLive loose s x × ((s.slot d == x) ≡ false) × (bptr s x ≡ p)
removed_no_leak loose s t d p r a m = elim (Bool-cases (s.slot d == 0)) [
  | inl y ↦
      let b : t.blocks ≡ s.blocks = r.blocks ∙ rw y refl in
      let (x, l, q) = a.no_leak p (rw⁻¹ b m) in
      let z = a.some_context x l in (x, l, ground arith, q)
  | inr y ↦
      let b : t.blocks ≡ remove (bptr s (s.slot d)) s.blocks = r.blocks ∙ rw y refl in
      let n : mem p (remove (bptr s (s.slot d)) s.blocks) ≡ true = rw⁻¹ b m in
      let (x, l, q) = a.no_leak p (mem-remove p (bptr s (s.slot d)) s.blocks n) in
      elim (Bool-cases (s.slot d == x)) [
        | inl e ↦
            let g = remove_gone (bptr s (s.slot d)) s.blocks a.blocks_apart in
            let v : s.slot d ≡ x = ground arith in
            let w : bptr s (s.slot d) ≡ p = ap (bptr s) v ∙ q in
            let c : mem (bptr s (s.slot d)) (remove (bptr s (s.slot d)) s.blocks) ≡ true =
              ap (λ i. mem i (remove (bptr s (s.slot d)) s.blocks)) w ∙ n in
            (x, l, e ∙ sym c ∙ g, q)
        | inr e ↦ (x, l, e, q)
      ]
]

-- The slots are shared by no two tasks, and no task has a loose context, once more.
removed_distinct :
    (loose : ℕ → Bool) (s t : Machine) (d u v : ℕ)
    → IsRemoved s d t
    → IsAccounted loose s
    → (t.slot u == 0) ≡ false
    → t.slot u ≡ t.slot v
    → u ≡ v
removed_distinct loose s t d u v r a z e = elim (Bool-cases (u == d)) [
  | inl f ↦ ground (arith, r.slot u)
  | inr f ↦ elim (Bool-cases (v == d)) [
    | inl g ↦ ground (arith, r.slot v)
    | inr g ↦
        let k : t.slot u ≡ s.slot u = r.slot u ∙ rw f refl in
        let m : t.slot v ≡ s.slot v = r.slot v ∙ rw g refl in
        a.distinct u v (rw⁻¹ k z) (sym k ∙ e ∙ m)
  ]
]

removed_apart :
    (loose : ℕ → Bool) (s t : Machine) (d x : ℕ)
    → IsRemoved s d t
    → IsAccounted loose s
    → loose x ≡ true
    → (u : ℕ) → (t.slot u == x) ≡ false
removed_apart loose s t d x r a l u =
    let z = a.some_context x (inr l) in
    elim (Bool-cases (u == d)) [
      | inl e ↦ let k : t.slot u ≡ 0 = r.slot u ∙ rw e refl in ground arith
      | inr e ↦
          let k : t.slot u ≡ s.slot u = r.slot u ∙ rw e refl in
          let n = a.loose_apart x l u in rw k n
    ]

pub removed-IsAccounted :
    {loose : ℕ → Bool} (s t : Machine) (d : ℕ)
    → IsRemoved s d t
    → IsAccounted loose s
    → IsAccounted loose t
removed-IsAccounted {loose = k} s t d r a = record {
  distinct = λ u v z e. removed_distinct k s t d u v r a z e;
  loose_apart = λ x l u. removed_apart k s t d x r a l u;
  some_context = λ x l. let (m, n) = kept-IsLive k s t d x r a l in a.some_context x m;
  held = λ x l.
      let (m, n) = kept-IsLive k s t d x r a l in
      let h = a.held x m in
      let b = kept_bptr s t d x r in
      record {
        in_use = rw b (removed_in_use k s t d x r a m n);
        word = rw b h.word;
        fits = rw b h.fits;
        line = rw b h.line;
      };
  blocks_apart = elim (Bool-cases (s.slot d == 0)) [
    | inl y ↦ rw (r.blocks, y) a.blocks_apart
    | inr y ↦ rw (r.blocks, y) (pairwise-remove (bptr s (s.slot d)) s.blocks a.blocks_apart)
  ];
  no_leak = λ p m.
      let (x, l, n, q) = removed_no_leak k s t d p r a m in
      (x, still-IsLive k s t d x r l n, kept_bptr s t d x r ∙ q);
}
