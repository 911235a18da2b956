-- ===== src/Uptime/Window.antt =====
-- The time that the load of miscUtils/task_uptime.c is measured over.
use rtems_ssrl_apps.Prelude.{
  ◌≡◌, refl, ap, sym, ◌∙◌, arith, Bool, true, false, Option, none, some, List, [], ◌∷◌, Bool-cases,
  Option-cases, inl, inr, ◌&&◌,
}
use rtems_ssrl_apps.Prelude.Int.{pos}
use rtems_ssrl_apps.Uptime.{
  Timespec, Double, Cell, internal_up, internal_idle, caller, same_cell, Store, assign, or_internal,
  Sample, miscu_get_idle_uptime, seconds, percentage, measured, miscu_cpu_load_percentage,
  miscu_cpu_load_percentage_init,
}

same_refl : (c : Cell) → same_cell c c ≡ true
same_refl internal_up = refl
same_refl internal_idle = refl
same_refl (caller i) = ground arith

assign_same : (c : Cell) (t : Timespec) (m : Store) → assign c t m c ≡ t
assign_same c t m = rw (same_refl c) refl

-- The time that `miscu_cpu_load_percentage_init` stores.
abbrev pub zero_time : Timespec
zero_time = record { tv_sec = pos 0; tv_nsec = pos 0 }

module _ {D : Type 0} (f : Double D) (timespec_subtract : Timespec → Timespec → Timespec) where
  -- The time from `a` to `b` in seconds is 0.
  abbrev pub no_time : Timespec → Timespec → Bool
  no_time a b = f.equal (f.of_int (pos 0)) (seconds f (timespec_subtract a b))

  -- A call that cannot tell the load since `a`: the clock or the idle task is not there, or the clock
  -- has not moved.
  abbrev pub tells_nothing : Timespec → Sample → Bool
  tells_nothing a w = elim w.uptime [
    | none ↦ true
    | some b ↦ elim w.idle [ none ↦ true | some i ↦ no_time a b ]
  ]

  module _ (lst_uptime lst_idletime : Option Cell) where
    abbrev pub up : Cell
    up = or_internal internal_up lst_uptime

    abbrev pub idle : Cell
    idle = or_internal internal_idle lst_idletime

    abbrev pub call : Sample → Store → D × Store
    call = miscu_cpu_load_percentage f timespec_subtract lst_uptime lst_idletime

    -- Calls that are made one after the other.
    abbrev pub calls : List Sample → Store → Store
    calls [] m = m
    calls (w ∷ ws) m = calls ws (call w m).1

    abbrev pub all_tell_nothing : Timespec → List Sample → Bool
    all_tell_nothing a [] = true
    all_tell_nothing a (w ∷ ws) = tells_nothing a w && all_tell_nothing a ws

    fails_lem : (w : Sample) (m : Store) → tells_nothing (m up) w ≡ true → call w m ≡ (f.nan, m)
    unfolding miscu_cpu_load_percentage measured miscu_get_idle_uptime
    fails_lem w m e = elim (Option-cases w.uptime) [
      | inl n ↦ rw n refl
      | inr (u, h) ↦ elim (Option-cases w.idle) [
        | inl n ↦ elim (Bool-cases (no_time (m up) u)) [
          | inl z ↦ rw (h, z) refl
          | inr z ↦ rw (h, z, n) refl
        ]
        | inr (i, k) ↦
            let z : no_time (m up) u ≡ true =
              (let q : tells_nothing (m up) w ≡ no_time (m up) u = rw (h, k) refl in sym q ∙ e) in
            rw (h, z) refl
      ]
    ]

    reads_lem :
        (w : Sample) (m : Store) (u i : Timespec)
        → w.uptime ≡ some u
        → w.idle ≡ some i
        → no_time (m up) u ≡ false
        → call w m ≡ (
          percentage f
              (seconds f (timespec_subtract (m up) u))
              (seconds f (timespec_subtract (m idle) i)),
          assign idle i (assign up u m),
        )
    unfolding miscu_cpu_load_percentage measured miscu_get_idle_uptime
    reads_lem w m u i h k z = rw (h, k, z) refl

    calls_fail : (ws : List Sample) (m : Store) → all_tell_nothing (m up) ws ≡ true → calls ws m ≡ m
    calls_fail [] m e = refl
    calls_fail (w ∷ ws) m e =
        let a : tells_nothing (m up) w ≡ true = ground arith in
        let b : all_tell_nothing (m up) ws ≡ true = ground arith in
        rw (fails_lem w m a) (calls_fail ws m b)

    -- A call that reads the clock and the idle task's time gives the load since the last call that did,
    -- with the same pointers to different variables, whatever calls between them fail: the clock or the
    -- idle task is not there, or no time has passed; those give NaN and change nothing.
    pub miscu_cpu_load_percentage-Window :
        (m : Store) (w v : Sample) (ws : List Sample) (u i t j : Timespec)
        → same_cell up idle ≡ false
        → w.uptime ≡ some u
        → w.idle ≡ some i
        → no_time (m up) u ≡ false
        → all_tell_nothing u ws ≡ true
        → v.uptime ≡ some t
        → v.idle ≡ some j
        → no_time u t ≡ false
        → let first = (call w m).1 in
          ((call v (calls ws first)).0
            ≡ percentage f (seconds f (timespec_subtract u t)) (seconds f (timespec_subtract i j)))
          × (calls ws first ≡ first)
    miscu_cpu_load_percentage-Window m w v ws u i t j d wu wi z n vu vi y =
        let n1 : Store = assign idle i (assign up u m) in
        let e : (call w m).1 ≡ n1 = ap (λ x. x.1) (reads_lem w m u i wu wi z) in
        let a : n1 up ≡ u = rw (d, same_refl up) refl in
        let b : n1 idle ≡ i = assign_same idle i (assign up u m) in
        let c : calls ws n1 ≡ n1 = calls_fail ws n1 (ap (λ x. all_tell_nothing x ws) a ∙ n) in
        let r = reads_lem v n1 t j vu vi (ap (λ x. no_time x t) a ∙ y) in
        rw (e, c)
          (
            ap (λ x. x.0) r
                ∙ ap
                    (λ x.
                      percentage f (seconds f (timespec_subtract x t))
                        (seconds f (timespec_subtract (n1 idle) j)))
                    a
                ∙ ap
                    (λ x.
                      percentage f (seconds f (timespec_subtract u t))
                        (seconds f (timespec_subtract x j)))
                    b,
            refl,
          )

  -- After `miscu_cpu_load_percentage_init` of two variables, the first call that reads the clock and the
  -- idle task's time gives the load since both were 0, the start of the system.
  pub init-Boot :
      (a b : Cell) (m : Store) (w : Sample) (u i : Timespec)
      → same_cell a b ≡ false
      → w.uptime ≡ some u
      → w.idle ≡ some i
      → no_time zero_time u ≡ false
      → (call (some a) (some b) w (miscu_cpu_load_percentage_init (some a) (some b) m)).0
        ≡ percentage f
            (seconds f (timespec_subtract zero_time u))
            (seconds f (timespec_subtract zero_time i))
  unfolding miscu_cpu_load_percentage_init
  init-Boot a b m w u i d wu wi z =
      let n : Store = assign b zero_time (assign a zero_time m) in
      let x : n a ≡ zero_time = rw (d, same_refl a) refl in
      let y : n b ≡ zero_time = assign_same b zero_time (assign a zero_time m) in
      ap (λ r. r.0) (reads_lem (some a) (some b) w n u i wu wi (ap (λ v. no_time v u) x ∙ z))
      ∙ ap
          (λ v.
            percentage f (seconds f (timespec_subtract v u))
              (seconds f (timespec_subtract (n b) i)))
          x
      ∙ ap
          (λ v.
            percentage f (seconds f (timespec_subtract zero_time u))
              (seconds f (timespec_subtract v i)))
          y
