-- ===== src/MemUtils/Image.antt =====
-- The loops under `coredump` of miscUtils/memUtils.c.
use rtems_ssrl_apps.Prelude.{
  ℕ, zero, suc, ◌+◌, ◌-◌, ◌*◌, ◌^◌, ◌≤◌, ◌<◌, ◌≡◌, refl, Bool, true, false, ◌&&◌, Bool-cases, inl,
  inr, Option, none, some, List, [], ◌∷◌, arith, ltb, leb, ◌==◌, ◌⊎◌,
}
use rtems_ssrl_apps.Prelude.Int.{ℤ, pos, negsuc}
use rtems_ssrl_apps.MemUtils.{u32, Write, write_loop, round_up}

-- What POSIX says of `write`: it fails, or writes one byte at least of those given, and no more.
abbrev pub Obeys : (ℕ → ℕ → ℤ) → Type 0
Obeys written = (n len w : ℕ) → 0 < len → written n len ≡ pos w → (1 ≤ w) × (w ≤ len)

-- Writes that go on where the last one ended, from `a` on, until the `l` bytes left are written or one
-- fails; with the address at the end, if none does.
pub data Wrote (written : ℕ → ℕ → ℤ) : (n a l : ℕ) → List Write → Option ℕ → Type 0 where
  done : {n a : ℕ} → Wrote written n a 0 [] (some a)
  next :
      {n a l w : ℕ} {ws : List Write} {r : Option ℕ}
      → 0 < l
      → written n l ≡ pos w
      → w ≤ l
      → Wrote written (n + 1) (a + w) (l - w) ws r
      → Wrote written n a l (record { start = a; len = l } ∷ ws) r
  fails :
      {n a l e : ℕ}
      → 0 < l
      → written n l ≡ negsuc e
      → Wrote written n a l (record { start = a; len = l } ∷ []) none

ℤ-cases : (z : ℤ) → ((w : ℕ) × (z ≡ pos w)) ⊎ ((e : ℕ) × (z ≡ negsuc e))
ℤ-cases (pos w) = inl (w, refl)
ℤ-cases (negsuc e) = inr (e, refl)

suc_ne : (n : ℕ) → (suc n == 0) ≡ false
suc_ne n = ground arith

loop_step :
    (written : ℕ → ℕ → ℤ) (k n here len w : ℕ) (ws : List Write) (r : Option ℕ)
    → written n (suc len) ≡ pos w
    → w ≤ suc len
    → here + suc len < 2 ^ 32
    → write_loop written k (n + 1) (here + w) (suc len - w) ≡ some (ws, r)
    → write_loop written (suc k) n here (suc len)
      ≡ some (record { start = here; len = suc len } ∷ ws, r)
unfolding write_loop
loop_step written k n here len w ws r z h b e =
    let there : u32 (here + w) ≡ here + w = omega arith in
    let left : u32 (suc len + 2 ^ 32 - w) ≡ suc len - w = omega arith in
    rw (suc_ne len, z, there, left, e) refl

-- With a `write` that obeys, as many turns as there are bytes are enough for the loop of `doWrite`, and
-- it writes them all, each where the last write ended, unless a write fails.
pub write_loop-Wrote :
    (written : ℕ → ℕ → ℤ) (k n here len : ℕ)
    → Obeys written
    → len ≤ k
    → here + len < 2 ^ 32
    → (ws : List Write) × (r : Option ℕ) × (write_loop written k n here len ≡ some (ws, r))
      × Wrote written n here len ws r
unfolding write_loop
write_loop-Wrote written zero n here zero o l b = ([], some here, refl, done)
write_loop-Wrote written zero n here (suc len) o l b = absurd (omega arith)
write_loop-Wrote written (suc k) n here zero o l b = ([], some here, refl, done)
write_loop-Wrote written (suc k) n here (suc len) o l b = elim (ℤ-cases (written n (suc len))) [
  | inr (e, z) ↦ (
    record { start = here; len = suc len } ∷ [],
    none,
    rw (suc_ne len, z) refl,
    fails (omega arith) z,
  )
  | inl (w, z) ↦
      let (low, high) = o n (suc len) w (omega arith) z in
      let (ws, r, e, c) =
        write_loop-Wrote written k (n + 1) (here + w) (suc len - w) o (omega arith) (omega arith) in
      (
        record { start = here; len = suc len } ∷ ws,
        r,
        loop_step written k n here len w ws r z high b e,
        next (omega arith) z high c,
      )
]

-- Doubling from `m` goes to 0 in `n` steps and stays at 2 ^ 31 or below.
abbrev vanishes : (n m : ℕ) → Bool
vanishes zero m = m == 0
vanishes (suc n) m = leb m (2 ^ 31) && vanishes n (u32 (m * 2))

abbrev reaches : (n m : ℕ) → Bool
reaches zero m = leb (2 ^ 31) m
reaches (suc n) m = leb m (2 ^ 30) && reaches n (u32 (m * 2))

stuck_at_0 : (k size : ℕ) → 0 < size → round_up k 0 size ≡ none
unfolding round_up
stuck_at_0 zero size p = ground arith
stuck_at_0 (suc k) size p = ground (arith, stuck_at_0 k size p)

vanishing_diverges :
    (n m k size : ℕ) → vanishes n m ≡ true → 2 ^ 31 < size → round_up k m size ≡ none
unfolding round_up
vanishing_diverges zero m k size v b = ground (arith, stuck_at_0 k size (omega arith))
vanishing_diverges (suc n) m zero size v b = ground arith
vanishing_diverges (suc n) m (suc k) size v b =
    ground (arith, vanishing_diverges n (u32 (m * 2)) k size)

-- A size above 2 ^ 31 is never reached: no number of turns ends the loop.
pub round_up_diverges : (k size : ℕ) → 2 ^ 31 < size → round_up k 1 size ≡ none
round_up_diverges k size b = vanishing_diverges 32 1 k size refl b

reaching_ends :
    (n m size : ℕ)
    → reaches n m ≡ true
    → m < 2 * size
    → size ≤ 2 ^ 31
    → (p : ℕ) × (round_up n m size ≡ some p) × (size ≤ p) × (p < 2 * size)
unfolding round_up
reaching_ends zero m size r d b = (m, ground arith, ground arith, ground arith)
reaching_ends (suc n) m size r d b = elim (Bool-cases (ltb m size)) [
  | inr c ↦ (m, ground arith, ground arith, d)
  | inl c ↦
      let (p, e, f, g) = reaching_ends n (u32 (m * 2)) size (ground arith) (ground arith) b in
      (p, ground arith, f, g)
]

-- Doubling from `m` stays at 2 ^ 31 or below for `n` turns.
abbrev capped : (n m : ℕ) → Bool
capped zero m = leb m (2 ^ 31)
capped (suc n) m = leb m (2 ^ 31) && capped n (u32 (m * 2))

capped_le : (n m size : ℕ) {p : ℕ} → capped n m ≡ true → round_up n m size ≡ some p → p ≤ 2 ^ 31
unfolding round_up
capped_le zero m size c e = ground arith
capped_le (suc n) m size c e = elim (Bool-cases (ltb m size)) [
  | inl b ↦ capped_le n (u32 (m * 2)) size (ground arith) (ground arith)
  | inr b ↦ ground arith
]

pub round_up_le : (size : ℕ) {p : ℕ} → round_up 31 1 size ≡ some p → p ≤ 2 ^ 31
round_up_le size e = capped_le 31 1 size refl e

-- A size of 2 ^ 31 at most is rounded up in 31 turns, to less than its double.
pub round_up-ends :
    (size : ℕ)
    → 0 < size
    → size ≤ 2 ^ 31
    → (p : ℕ) × (round_up 31 1 size ≡ some p) × (size ≤ p) × (p < 2 * size)
round_up-ends size p b = reaching_ends 31 1 size refl (omega arith) b
