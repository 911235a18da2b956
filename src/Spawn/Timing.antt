-- ===== src/Spawn/Timing.antt =====
-- What miscUtils/exectime.c measures.
use rtems_ssrl_apps.Prelude.{
  ℕ, ◌+◌, ◌-◌, ◌*◌, ◌%◌, ◌^◌, ◌<◌, ◌≤◌, ◌≡◌, arith, ltb, Bool-cases, inl, inr,
}
use rtems_ssrl_apps.Prelude.Int.{ℤ}
use rtems_ssrl_apps.Spawn.{turns, Timeval, exec_us_n}

abbrev pub micros : Timeval → ℕ
micros t = t.tv_sec * 1000000 + t.tv_usec

pub record IsTimeval (t : Timeval) : Type 0 where
  pub sec : t.tv_sec < 2 ^ 32
  pub usec : t.tv_usec < 1000000

-- Of a clock that does not go back, `execUsN` returns the microseconds that have passed, modulo 2 ^ 32, and
-- it makes one call more than `rep`, or one if `rep` is negative.
pub exec_us_n-micros :
    (rep : ℤ) (before now : Timeval)
    → IsTimeval before
    → IsTimeval now
    → micros before ≤ micros now
    → exec_us_n rep before now ≡ (turns rep + 1, (micros now - micros before) % 2 ^ 32)
unfolding exec_us_n
exec_us_n-micros rep before now b n le = elim (Bool-cases (ltb now.tv_usec before.tv_usec)) [
  | inl e ↦ rw e (ground arith)
  | inr e ↦ rw e (ground arith)
]
