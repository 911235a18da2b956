-- ===== src/MemUtils/Dump.antt =====
-- The loop of `md` of miscUtils/memUtils.c.
use rtems_ssrl_apps.Prelude.{ℕ, zero, suc, ◌+◌, ◌≤◌, ◌<◌, arith, ltb, Bool-cases, inl, inr}
use rtems_ssrl_apps.MemUtils.{md_loop}

-- With as many turns as there are bytes left, the loop comes to its end: `i` reaches the count.
md_loop_ends :
    (k i count size address oadd : ℕ)
    → 0 < size
    → count ≤ i + k
    → count ≤ (md_loop k i count size address oadd).1
unfolding md_loop
md_loop_ends zero i count size address oadd p b = omega arith
md_loop_ends (suc k) i count size address oadd p b = elim (Bool-cases (ltb i count)) [
  | inr e ↦ rw e (ground arith)
  | inl e ↦ rw e (md_loop_ends k (i + size) count size _ _ p (omega arith))
]
