-- ===== src/Monitor/Exclusion.antt =====
-- One task at a time is in the monitor, the busy mark names it, and none waits for ever on a mutex that
-- nobody holds.
use rtems_ssrl_apps.Prelude.{
  ℕ, zero, suc, ◌≡◌, ◌≢◌, inl, inr, refl, Bool, true, false, arith, ◌==◌, Bool-cases, sym, ◌≤◌, ◌-◌,
  ◌∙◌,
}
use mathlib.Core.Path.{subst}
use rtems_ssrl_apps.Monitor.{
  Pc, outside, entering, testing, refused, claimed, session, leaving, clearing, cleared, Shared,
  Move, call, obtain, busy, refuse, mark, start, finish, obtain_again, clear, release, System,
  update, Step, pick, Reach, here, next,
}

abbrev pub holds_mutex : Pc → Bool
holds_mutex testing = true
holds_mutex refused = true
holds_mutex claimed = true
holds_mutex clearing = true
holds_mutex cleared = true
holds_mutex _ = false

abbrev pub in_monitor : Pc → Bool
in_monitor claimed = true
in_monitor session = true
in_monitor leaving = true
in_monitor clearing = true
in_monitor _ = false

-- The mutex and the busy mark name the task `j` exactly if it stands where it holds them.
pub record Agrees (m : Shared) (j : ℕ) (p : Pc) : Type 0 where
  pub mutex : holds_mutex p ≡ (m.mutex == suc j)
  pub task_id : in_monitor p ≡ (m.task_id == suc j)

abbrev pub Inv : System → Type 0
Inv s = (j : ℕ) → Agrees s.shared j (s.pc j)

-- A step of `i` keeps what holds of `i`, and of any other task `j`.
Move-self : {i : ℕ} {m n : Shared} {p q : Pc} → Move i m p n q → Agrees m i p → Agrees n i q
Move-self call a = ground arith
Move-self (obtain e) a = ground arith
Move-self (busy e) a = ground arith
Move-self refuse a = ground arith
Move-self (mark e) a = ground arith
Move-self start a = ground arith
Move-self finish a = ground arith
Move-self (obtain_again e) a = ground arith
Move-self clear a = ground arith
Move-self release a = ground arith

Move-other :
    {i j : ℕ} {m n : Shared} {p q r : Pc}
    → Move i m p n q
    → i ≢ j
    → Agrees m i p
    → Agrees m j r
    → Agrees n j r
Move-other call d a b = b
Move-other (obtain e) d a b = ground arith
Move-other (busy e) d a b = b
Move-other refuse d a b = ground arith
Move-other (mark e) d a b = ground arith
Move-other start d a b = ground arith
Move-other finish d a b = b
Move-other (obtain_again e) d a b = ground arith
Move-other clear d a b = ground arith
Move-other release d a b = ground arith

Step-Inv : {s t : System} → Step s t → Inv s → Inv t
Step-Inv {s} (pick i {m = m} {p = p} mv) inv j = elim (Bool-cases (i == j)) [
  | inl e ↦
      let q : i ≡ j = ground arith in rw e (subst (λ k. Agrees m k p) q (Move-self mv (inv i)))
  | inr e ↦ rw e (Move-other mv (ground arith) (inv i) (inv j))
]

pub Reach-Inv : {s : System} → Reach s → Inv s
Reach-Inv here = λ j. ground arith
Reach-Inv (next r st) = Step-Inv st (Reach-Inv r)

-- Two tasks are never in the monitor together, and the busy mark names the one that is.
pub mutual_exclusion :
    {s : System}
    → Reach s
    → (i j : ℕ) → in_monitor (s.pc i) ≡ true
    → in_monitor (s.pc j) ≡ true
    → (i ≡ j) × (s.shared.task_id ≡ suc i)
mutual_exclusion {s} r i j a b = ground (arith, Reach-Inv r i, Reach-Inv r j)

-- So many steps, of whatever tasks.
pub data Runs : ℕ → System → System → Type 0 where
  done : {s : System} → Runs zero s s
  more : {n : ℕ} {s t u : System} → Step s t → Runs n t u → Runs (suc n) s u

-- The task `k` gives the mutex back in one step or in two.
data Drains (k : ℕ) (m : Shared) (p : Pc) : Type 0 where
  soon : {n : Shared} {q : Pc} → Move k m p n q → n.mutex ≡ 0 → Drains k m p
  then_soon :
      {m' n : Shared} {p' q : Pc} → Move k m p m' p' → Move k m' p' n q → n.mutex ≡ 0 → Drains k m p

holder-Drains : (k : ℕ) (m : Shared) (p : Pc) → holds_mutex p ≡ true → Drains k m p
holder-Drains k m testing h = elim (Bool-cases (m.task_id == 0)) [
  | inl e ↦ then_soon (mark (ground arith)) start refl
  | inr e ↦ then_soon (busy (ground arith)) refuse refl
]
holder-Drains k m refused h = soon refuse refl
holder-Drains k m claimed h = soon start refl
holder-Drains k m clearing h = then_soon clear release refl
holder-Drains k m cleared h = soon release refl
holder-Drains k m outside h = cc
holder-Drains k m entering h = cc
holder-Drains k m session h = cc
holder-Drains k m leaving h = cc

pick_at :
    (s : System) (i : ℕ) (p : Pc) {m : Shared} {q : Pc}
    → s.pc i ≡ p
    → Move i s.shared p m q
    → Step s (record { shared = m; pc = update s.pc i q })
pick_at s i p {m} {q} e mv = pick i (subst (λ x. Move i s.shared x m q) (sym e) mv)

abbrev pub waits : Pc → Bool
waits entering = true
waits leaving = true
waits _ = false

take_mutex :
    (s : System) (i : ℕ) (p : Pc)
    → s.pc i ≡ p
    → waits p ≡ true
    → s.shared.mutex ≡ 0
    → (t : System) × Step s t × (holds_mutex (t.pc i) ≡ true)
take_mutex s i entering e w z = (_, pick_at s i entering e (obtain z), ground arith)
take_mutex s i leaving e w z = (_, pick_at s i leaving e (obtain_again z), ground arith)
take_mutex s i outside e w z = cc
take_mutex s i testing e w z = cc
take_mutex s i refused e w z = cc
take_mutex s i claimed e w z = cc
take_mutex s i session e w z = cc
take_mutex s i clearing e w z = cc
take_mutex s i cleared e w z = cc

Runs-Step : {n : ℕ} {s t u : System} → Runs n s t → Step t u → Runs (suc n) s u
Runs-Step done st = more st done
Runs-Step (more first r) st = more first (Runs-Step r st)

update_ne : (f : ℕ → Pc) (i j : ℕ) (p : Pc) → i ≢ j → update f i p j ≡ f j
update_ne f i j p d = ground arith

update_self : (f : ℕ → Pc) (i : ℕ) (p : Pc) → update f i p i ≡ p
update_self f i p = ground arith

-- The mutex is free after one step or two, and the task `i` stands where it stood.
drained :
    (s : System) (k i : ℕ)
    → k ≢ i
    → Drains k s.shared (s.pc k)
    → (n : ℕ) × (t : System) × Runs n s t × (n ≤ 2) × (t.shared.mutex ≡ 0) × (t.pc i ≡ s.pc i)
drained s k i d (soon {q = q} mv z) =
    (1, _, more (pick k mv) done, omega arith, z, update_ne s.pc k i q d)
drained s k i d (then_soon {p' = p} {q = q} mv nv z) =
    let t : System = record { shared = _; pc = update s.pc k p } in
    (
      2,
      _,
      more (pick k mv) (more (pick_at t k p (update_self s.pc k p) nv) done),
      omega arith,
      z,
      update_ne t.pc k i q d ∙ update_ne s.pc k i p d,
    )

waits_apart : (p : Pc) → waits p ≡ true → holds_mutex p ≢ true
waits_apart p w h = ground arith

-- Wherever the tasks stand, a task that waits for the mutex can have it within three steps: two at most
-- of the task that holds it, and one of its own.
pub no_deadlock :
    {s : System}
    → Reach s
    → (i : ℕ) → waits (s.pc i) ≡ true
    → (n : ℕ) × (t : System) × Runs n s t × (n ≤ 3) × (holds_mutex (t.pc i) ≡ true)
no_deadlock {s} r i w = elim (Bool-cases (s.shared.mutex == 0)) [
  | inl free ↦
      let (t, st, h) = take_mutex s i (s.pc i) refl w (ground arith) in
      (1, t, more st done, omega arith, h)
  | inr held ↦
      let k = s.shared.mutex - 1 in
      let h : holds_mutex (s.pc k) ≡ true = ground (arith, Reach-Inv r k) in
      let d : k ≢ i = λ e. waits_apart (s.pc i) w (rw (← e) h) in
      let (n, t, rs, le, z, same) = drained s k i d (holder-Drains k s.shared (s.pc k) h) in
      let (u, st, g) = take_mutex t i (s.pc i) same w z in
      (suc n, u, Runs-Step rs st, omega arith, g)
]
