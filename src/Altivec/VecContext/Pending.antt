-- ===== src/Altivec/VecContext/Pending.antt =====
-- The calls of `vec_task_enable` of altivec/vec_context.c that are between their two halves.
use rtems_ssrl_apps.Prelude.{
  ℕ, ◌≡◌, ◌==◌, ◌∙◌, ap, sym, true, false, refl, arith, Bool-cases, inl, inr,
}
use rtems_ssrl_apps.Altivec.VecContext.{Machine, put, continues}
use rtems_ssrl_apps.Altivec.VecContext.Tasks.{System, IsPending, allocated_by, attached_by, stopped}
use rtems_ssrl_apps.Altivec.VecContext.Attached.{IsAttached}

-- A task without a context gets none.
abbrev pub IsNoGain : Machine → Machine → Type 0
IsNoGain s m = (t : ℕ) → (s.slot t == 0) ≡ true → (m.slot t == 0) ≡ true

pub kept-IsPending :
    (s : System) (m : Machine)
    → IsNoGain s.machine m
    → IsPending s
    → IsPending (record s { machine = m })
kept-IsPending s m k p = record {
  is_loose = p.is_loose;
  no_slot = λ t n. k t (p.no_slot t n);
  own = p.own;
}

-- A call that is still there is another task's.
going_on : (d t : ℕ) (f : ℕ → ℕ) → (put d 0 f t == 0) ≡ false → put d 0 f t ≡ f t
going_on d t f n = ground arith

pub stopped-IsPending :
    (s : System) (d : ℕ) (m : Machine)
    → IsNoGain s.machine m
    → IsPending s
    → IsPending (stopped d s m)
stopped-IsPending s d m k p = record {
  is_loose = λ t n. let e = going_on d t s.tcbext n in rw e (p.is_loose t (rw⁻¹ e n));
  no_slot = λ t n. let e = going_on d t s.tcbext n in k t (p.no_slot t (rw⁻¹ e n));
  own = λ t u n q.
      let e = going_on d t s.tcbext n in
      let m : (put d 0 s.tcbext u == 0) ≡ false = rw⁻¹ q n in
      let f = going_on d u s.tcbext m in p.own t u (rw⁻¹ e n) (sym e ∙ q ∙ f);
}

pub allocated-IsPending :
    (s : System) (a : ℕ) (m : Machine)
    → m.slot ≡ s.machine.slot
    → (s.machine.slot s.machine.executing == 0) ≡ true
    → ((x : ℕ) → s.loose x ≡ true → (a == x) ≡ false)
    → IsPending s
    → IsPending (allocated_by s (continues a m))
allocated-IsPending s a m e z f p = record {
  is_loose = λ t n. elim (Bool-cases (t == s.machine.executing)) [
    | inl x ↦ ground arith
    | inr x ↦
        let k : (s.tcbext t == 0) ≡ false = ground arith in let l = p.is_loose t k in ground arith
  ];
  no_slot = λ t n. rw e (elim (Bool-cases (t == s.machine.executing)) [
    | inl x ↦
        let y : s.machine.executing ≡ t = ground arith in
        ap (λ v. s.machine.slot v == 0) (sym y) ∙ z
    | inr x ↦ p.no_slot t (ground arith)
  ]);
  own = λ t u n q. elim (Bool-cases (t == s.machine.executing)) [
    | inl x ↦ elim (Bool-cases (u == s.machine.executing)) [
      | inl y ↦ ground arith
      | inr y ↦
          let k : (s.tcbext u == 0) ≡ false = ground arith in
          let l = f (s.tcbext u) (p.is_loose u k) in ground arith
    ]
    | inr x ↦
        let k : (s.tcbext t == 0) ≡ false = ground arith in
        elim (Bool-cases (u == s.machine.executing)) [
          | inl y ↦ let l = f (s.tcbext t) (p.is_loose t k) in ground arith
          | inr y ↦ p.own t u k (ground arith)
        ]
  ];
}

-- The other calls have contexts of their own, and their tasks have still none.
pub attached-IsPending :
    (s : System)
    → (s.tcbext s.machine.executing == 0) ≡ false
    → IsAttached s.loose s.machine (s.tcbext s.machine.executing) (attached_by s).machine
    → IsPending s
    → IsPending (attached_by s)
attached-IsPending s z q p = record {
  is_loose = λ t n.
      let x = s.machine.executing in
      let e = going_on x t s.tcbext n in
      let k : (s.tcbext t == 0) ≡ false = rw⁻¹ e n in
      elim (Bool-cases (s.tcbext t == s.tcbext x)) [
        | inl f ↦ let y = p.own t x k (ground arith) in ground arith
        | inr f ↦ rw (e, f) (p.is_loose t k)
      ];
  no_slot = λ t n.
      let x = s.machine.executing in
      let e = going_on x t s.tcbext n in
      let k : (t == x) ≡ false = ground arith in
      let f : (attached_by s).machine.slot t ≡ s.machine.slot t = q.slot t ∙ rw k refl in
      rw f (p.no_slot t (rw⁻¹ e n));
  own = λ t u n e.
      let x = s.machine.executing in
      let f = going_on x t s.tcbext n in
      let m : (put x 0 s.tcbext u == 0) ≡ false = rw⁻¹ e n in
      let g = going_on x u s.tcbext m in p.own t u (rw⁻¹ f n) (sym f ∙ e ∙ g);
}
