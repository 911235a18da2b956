-- ===== src/Spawn/Ownership.antt =====
-- Who frees the arguments of a task of miscUtils/loop.c, and how often it calls its function.
use rtems_ssrl_apps.Prelude.{
  ℕ, zero, suc, ◌+◌, ◌≡◌, refl, Bool, true, false, some, List, [], ◌∷◌, ◌++◌, ◌==◌, ltb,
  if◌then◌else◌, arith, Bool-cases, Option-cases, inl, inr,
}
use rtems_ssrl_apps.Prelude.Int.{ℤ, pos}
use rtems_ssrl_apps.Spawn.{
  Args, Event, create_period, call, delete_period, free_args, delete_self, create_task, start_task,
  turns, wrap_loop, wrap, Tasks, spawn, after_spawn, spawn_util, loop_util,
}

-- How often events of a kind occur.
abbrev pub tally : (Event → ℕ) → List Event → ℕ
tally f [] = 0
tally f (e ∷ es) = f e + tally f es

tally-append : (f : Event → ℕ) (xs ys : List Event) → tally f (xs ++ ys) ≡ tally f xs + tally f ys
tally-append f [] ys = omega arith
tally-append f (x ∷ xs) ys = omega (arith, tally-append f xs ys)

abbrev pub frees : Event → ℕ
frees free_args = 1
frees _ = 0

abbrev pub calls : Event → ℕ
calls (call _ _) = 1
calls _ = 0

abbrev pub periods_made : Event → ℕ
periods_made (create_period b) = if b then 1 else 0
periods_made _ = 0

abbrev pub periods_deleted : Event → ℕ
periods_deleted delete_period = 1
periods_deleted _ = 0

-- The turns before the first deadline that is missed, from the `n`-th on.
abbrev pub in_time : (ℕ → Bool) → (k n : ℕ) → ℕ
in_time on_time zero n = 0
in_time on_time (suc k) n =
    let rest = in_time on_time k (n + 1) in if on_time n then suc rest else 0

-- The loop calls, and frees and deletes nothing.
pub record IsLoop (es : List Event) (n : ℕ) : Type 0 where
  pub called : tally calls es ≡ n
  pub frees : tally frees es ≡ 0
  pub made : tally periods_made es ≡ 0
  pub deleted : tally periods_deleted es ≡ 0

module _ (on_time : ℕ → Bool) (a : Args) where
  periodic-IsLoop : (k n : ℕ) → IsLoop (wrap_loop on_time true a k n) (in_time on_time k n)
  unfolding wrap_loop
  periodic-IsLoop zero n = record { called = refl; frees = refl; made = refl; deleted = refl }
  periodic-IsLoop (suc k) n = elim (Bool-cases (on_time n)) [
    | inl e ↦ let h = periodic-IsLoop k (n + 1) in rw e (ground (arith, h))
    | inr e ↦ rw e (ground arith)
  ]

  single-IsLoop : (k n : ℕ) → IsLoop (wrap_loop on_time false a k n) k
  unfolding wrap_loop
  single-IsLoop zero n = record { called = refl; frees = refl; made = refl; deleted = refl }
  single-IsLoop (suc k) n = ground (arith, single-IsLoop k (n + 1))

-- How often a task calls its function.
abbrev pub calls_made : (created : Bool) → (on_time : ℕ → Bool) → ℤ → ℕ
calls_made created on_time n =
    if ltb 1 (turns n) then (if created then in_time on_time (turns n) 0 else 0) else turns n

-- The events of a task that calls `n` times, frees its arguments once and deletes the periods it made.
pub record Ran (es : List Event) (n : ℕ) : Type 0 where
  pub called : tally calls es ≡ n
  pub freed : tally frees es ≡ 1
  pub periods : tally periods_made es ≡ tally periods_deleted es

abbrev ends : List Event
ends = free_args ∷ delete_self ∷ []

bare-Ran : {es : List Event} {n : ℕ} → IsLoop es n → Ran (es ++ ends) n
bare-Ran {es} h = record {
  called = omega (arith, tally-append calls es ends, h.called);
  freed = omega (arith, tally-append frees es ends, h.frees);
  periods = omega (
    arith,
    tally-append periods_made es ends,
    tally-append periods_deleted es ends,
    h.made,
    h.deleted,
  );
}

periodic-Ran :
    {es : List Event} {n : ℕ}
    → IsLoop es n
    → Ran (create_period true ∷ (es ++ delete_period ∷ ends)) n
periodic-Ran {es} h =
    let fs = delete_period ∷ ends in
    record {
      called = omega (arith, tally-append calls es fs, h.called);
      freed = omega (arith, tally-append frees es fs, h.frees);
      periods = omega (
        arith,
        tally-append periods_made es fs,
        tally-append periods_deleted es fs,
        h.made,
        h.deleted,
      );
    }

wrap-Ran :
    (created : Bool) (on_time : ℕ → Bool) (a : Args)
    → Ran (wrap created on_time a) (calls_made created on_time a.times)
unfolding wrap
wrap-Ran created on_time a = elim (Bool-cases (ltb 1 (turns a.times))) [
  | inr e ↦ rw e (bare-Ran (single-IsLoop on_time a (turns a.times) 0))
  | inl e ↦ elim (Bool-cases created) [
    | inr c ↦ rw (e, c) (record { called = refl; freed = refl; periods = refl })
    | inl c ↦ rw (e, c) (periodic-Ran (periodic-IsLoop on_time a (turns a.times) 0))
  ]
]

-- Creation and start change nothing of what is counted.
later-Ran :
    (p s : ℕ) {es : List Event} {n : ℕ}
    → Ran es n
    → Ran (create_task p s true ∷ start_task true ∷ es) n
later-Ran p s h = record {
  called = omega (arith, h.called);
  freed = omega (arith, h.freed);
  periods = omega (arith, h.periods);
}

suc_ne : (n : ℕ) → (suc n == 0) ≡ false
suc_ne n = ground arith

-- The caller of `spawn` and, where there is a task, the task.
abbrev pub all_events : (created : Bool) → (on_time : ℕ → Bool) → ℕ × List Event × Args → List Event
all_events created on_time (tid, es, a) = es ++ (if tid == 0 then [] else wrap created on_time a)

after_spawn-Ran :
    (created : Bool) (on_time : ℕ → Bool) (t : Tasks) (priority stack : ℕ) (a : Args)
    → (r : ℕ × List Event × Args) × (after_spawn a (spawn t priority stack) ≡ some r)
      × Ran
          (all_events created on_time r)
          (if r.0 == 0 then 0 else calls_made created on_time a.times)
unfolding spawn after_spawn
after_spawn-Ran created on_time t priority stack a =
    let p = if priority == 0 then 60 else priority in
    let s = if stack == 0 then 20000 else stack in
    elim (Option-cases t.created) [
      | inl n ↦ (
        (0, create_task p s false ∷ free_args ∷ [], a),
        rw (n, spawn, after_spawn) refl,
        record { called = refl; freed = refl; periods = refl },
      )
      | inr (tid, n) ↦ elim (Bool-cases t.started) [
        | inr f ↦ (
          (0, create_task p s true ∷ start_task false ∷ free_args ∷ [], a),
          rw (n, f, spawn, after_spawn) refl,
          record { called = refl; freed = refl; periods = refl },
        )
        | inl f ↦
            let h = wrap-Ran created on_time a in
            (
              (suc tid, create_task p s true ∷ start_task true ∷ [], a),
              rw (n, f, suc_ne tid, spawn, after_spawn) refl,
              rw (suc_ne tid) (later-Ran p s h),
            )
      ]
    ]

-- Where there is memory for them, the arguments of `spawnUtil` are freed exactly once, by it or by its task,
-- and the function is called once if there is a task, and not otherwise.
pub spawn_util-Ran :
    (created : Bool) (on_time : ℕ → Bool) (t : Tasks) (priority stack fn : ℕ) (xs : List ℕ)
    → (r : ℕ × List Event × Args) × (spawn_util t true priority stack fn xs ≡ some r)
      × Ran (all_events created on_time r) (if r.0 == 0 then 0 else 1)
unfolding spawn_util
spawn_util-Ran created on_time t priority stack fn xs =
    after_spawn-Ran created on_time t priority stack
      (record { fn = fn; period_ticks = 0; times = pos 1; arguments = xs })

-- Where there is memory for them, the arguments of `loopUtil` are freed exactly once, by it or by its task;
-- the task deletes the period that it makes, and calls the function as often as it is told to if that is
-- at most once, and otherwise, with a period, until the first deadline that is missed, and without one not
-- at all.
pub loop_util-Ran :
    (created : Bool) (on_time : ℕ → Bool) (t : Tasks) (ticks : ℕ) (n : ℤ) (fn : ℕ) (xs : List ℕ)
    → (r : ℕ × List Event × Args) × (loop_util t true ticks n fn xs ≡ some r)
      × Ran (all_events created on_time r) (if r.0 == 0 then 0 else calls_made created on_time n)
unfolding loop_util
loop_util-Ran created on_time t ticks n fn xs =
    after_spawn-Ran created on_time t 0 0
      (record { fn = fn; period_ticks = ticks; times = n; arguments = xs })
