-- ===== src/Altivec/VecContext/Prepared.antt =====
-- The slots and the accounts once `vec_task_enable` of altivec/vec_context.c has set the task's slot.
use rtems_ssrl_apps.Prelude.{
  ℕ, ◌≡◌, ◌==◌, ◌∙◌, ap, sym, Bool, true, false, some, if◌then◌else◌, refl, arith, Bool-cases,
  Option-cases, inl, inr,
}
use rtems_ssrl_apps.Altivec.VecContext.{Machine, put, is_owner}
use rtems_ssrl_apps.Altivec.VecContext.Tasks.{tasks, mem, IsLive, IsOrdered, IsAccounted}
use rtems_ssrl_apps.Altivec.VecContext.Enabling.{IsPrepared, initial}

pub prepared_own : (s t : Machine) (a : ℕ) → IsPrepared s a t → t.slot s.executing ≡ a
prepared_own s t a q =
    let v : (s.executing == s.executing) ≡ true = ground arith in q.slot s.executing ∙ rw v refl

-- Who has a context still has it, also with the new one attached.
prepared_distinct :
    (loose : ℕ → Bool) (s t : Machine) (a : ℕ)
    → IsAccounted loose s
    → IsPrepared s a t
    → loose a ≡ true
    → (u v : ℕ) → (t.slot u == 0) ≡ false
    → t.slot u ≡ t.slot v
    → u ≡ v
prepared_distinct loose s t a c q l u v z e = elim (Bool-cases (u == s.executing)) [
  | inl x ↦ elim (Bool-cases (v == s.executing)) [
    | inl y ↦ ground arith
    | inr y ↦
        let k : t.slot v ≡ s.slot v = q.slot v ∙ rw y refl in
        let m : t.slot u ≡ a = q.slot u ∙ rw x refl in
        let f : a ≡ s.slot v = sym m ∙ e ∙ k in let h = c.loose_apart a l v in ground arith
  ]
  | inr x ↦
      let g : t.slot u ≡ s.slot u = q.slot u ∙ rw x refl in
      let n : (s.slot u == 0) ≡ false = rw⁻¹ g z in
      elim (Bool-cases (v == s.executing)) [
        | inl y ↦
            let f : s.slot u ≡ a = sym g ∙ e ∙ q.slot v ∙ rw y refl in
            let h = c.loose_apart a l u in ground arith
        | inr y ↦ c.distinct u v n (sym g ∙ e ∙ q.slot v ∙ rw y refl)
      ]
]

prepared_apart :
    (loose : ℕ → Bool) (s t : Machine) (a x : ℕ)
    → IsAccounted loose s
    → IsPrepared s a t
    → put a false loose x ≡ true
    → (u : ℕ) → (t.slot u == x) ≡ false
prepared_apart loose s t a x c q l u =
    let n : (x == a) ≡ false = ground arith in
    let m : loose x ≡ true = ground arith in
    let f = c.loose_apart x m u in
    rw (q.slot u) (elim (Bool-cases (u == s.executing)) [ inl e ↦ ground arith | inr e ↦ rw e f ])

-- The contexts there are do not change: one is attached that was loose.
before-IsLive :
    (loose : ℕ → Bool) (s t : Machine) (a x : ℕ)
    → IsPrepared s a t
    → loose a ≡ true
    → IsLive (put a false loose) t x
    → IsLive loose s x
before-IsLive loose s t a x q l (inr m) = inr (ground arith)
before-IsLive loose s t a x q l (inl (u, z, e)) = elim (Bool-cases (u == s.executing)) [
  | inl f ↦
      let k : t.slot u ≡ a = q.slot u ∙ rw f refl in
      let g : a ≡ x = sym k ∙ e in inr (ap loose (sym g) ∙ l)
  | inr f ↦ let k : t.slot u ≡ s.slot u = q.slot u ∙ rw f refl in inl (u, rw⁻¹ k z, sym k ∙ e)
]

no_slot_differs : (f : ℕ → ℕ) (d u : ℕ) → (f d == 0) ≡ true → (f u == 0) ≡ false → (u == d) ≡ false
no_slot_differs f d u o z = elim (Bool-cases (u == d)) [
  | inl e ↦ let q : u ≡ d = ground arith in ground (arith, ap f q)
  | inr e ↦ e
]

behind-IsLive :
    (loose : ℕ → Bool) (s t : Machine) (a x : ℕ)
    → IsPrepared s a t
    → (a == 0) ≡ false
    → (s.slot s.executing == 0) ≡ true
    → IsLive loose s x
    → IsLive (put a false loose) t x
behind-IsLive loose s t a x q n o (inl (u, z, e)) =
    let f = no_slot_differs s.slot s.executing u o z in
    let k : t.slot u ≡ s.slot u = q.slot u ∙ rw f refl in inl (u, rw k z, k ∙ e)
behind-IsLive loose s t a x q n o (inr m) = elim (Bool-cases (x == a)) [
  | inl e ↦
      let g : a ≡ x = ground arith in
      let k = prepared_own s t a q in inl (s.executing, rw k n, k ∙ g)
  | inr e ↦ inr (rw e m)
]

pub prepared-IsAccounted :
    (loose : ℕ → Bool) (s t : Machine) (a : ℕ)
    → IsAccounted loose s
    → IsPrepared s a t
    → loose a ≡ true
    → (s.slot s.executing == 0) ≡ true
    → IsAccounted (put a false loose) t
prepared-IsAccounted loose s t a c q l o = record {
  distinct = λ u v z e. prepared_distinct loose s t a c q l u v z e;
  loose_apart = λ x m u. prepared_apart loose s t a x c q m u;
  some_context = λ x m. c.some_context x (before-IsLive loose s t a x q l m);
  held = λ x m.
      let h = c.held x (before-IsLive loose s t a x q l m) in
      let b = q.bptrs x in
      record {
        in_use = rw (b, q.blocks) h.in_use;
        word = rw b h.word;
        fits = rw b h.fits;
        line = rw b h.line;
      };
  blocks_apart = rw q.blocks c.blocks_apart;
  no_leak = λ p m.
      let n : mem p s.blocks ≡ true = ap (mem p) (sym q.blocks) ∙ m in
      let (x, y, e) = c.no_leak p n in
      (x, behind-IsLive loose s t a x q (c.some_context a (inr l)) o y, q.bptrs x ∙ e);
}

not_owner :
    (s : Machine) (u : ℕ) → IsOrdered s → (s.slot u == 0) ≡ true → is_owner s.vec_owner u ≡ false
not_owner s u o z = elim (Option-cases s.vec_owner) [
  | inl n ↦ rw n refl
  | inr (w, h) ↦ elim (Bool-cases (w == u)) [
    | inl e ↦ let q : w ≡ u = ground arith in ground (arith, o.owner_holds w h, ap s.slot q)
    | inr e ↦ rw h e
  ]
]

-- Before the hook, the running task sees in its context what is set there, and the others what they did.
pub prepared_tasks :
    (loose : ℕ → Bool) (s t : Machine) (a : ℕ)
    → IsOrdered s
    → IsAccounted loose s
    → IsPrepared s a t
    → loose a ≡ true
    → (s.slot s.executing == 0) ≡ true
    → (u : ℕ) → tasks t u ≡ (if u == s.executing then some (initial s a) else tasks s u)
unfolding tasks
prepared_tasks loose s t a o c q l z u = elim (Bool-cases (u == s.executing)) [
  | inl x ↦
      let g : t.slot u ≡ a = q.slot u ∙ rw x refl in
      let y : u ≡ s.executing = ground arith in
      let w : is_owner t.vec_owner u ≡ false =
        ap (λ v. is_owner v u) q.vec_owner ∙ not_owner s u o (rw y z) in
      rw (g, x, c.some_context a (inr l), w, q.fresh) refl
  | inr x ↦
      let g : t.slot u ≡ s.slot u = q.slot u ∙ rw x refl in
      let k = c.loose_apart a l u in rw (g, x, q.unit, q.others (s.slot u) k, q.vec_owner) refl
]
