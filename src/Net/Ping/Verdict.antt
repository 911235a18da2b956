-- ===== src/Net/Ping/Verdict.antt =====
-- What the value of `rtems_ping` of miscUtils/icmpping.c tells.
use rtems_ssrl_apps.Prelude.{
  ℕ, zero, suc, ◌+◌, ◌≤◌, ◌≡◌, ◌↔◌, Bool, true, false, ◌&&◌, Option, none, some, arith,
}
use rtems_ssrl_apps.Prelude.Int.{is_neg}
use rtems_ssrl_apps.Net.Ping.{neg, ping_loop, rtems_ping}

-- How many of the `k` pings from the number `i` on fail.
abbrev pub failures : (ℕ → Option ℕ) → ℕ → ℕ → ℕ
failures send zero i = 0
failures send (suc k) i = elim (send i) [ none ↦ 1 | some _ ↦ 0 ] + failures send k (i + 1)

loop_failures :
    (send : ℕ → Option ℕ) (k i : ℕ)
    → ((ping_loop send k i).0 ≡ failures send k i) × (failures send k i ≤ k)
unfolding ping_loop
loop_failures send zero i = ground arith
loop_failures send (suc k) i = ground (arith, loop_failures send k (i + 1))

-- The value tells the three ends apart: it is -(n + 2) exactly without an address or a ping, else minus
-- the number of the n + 1 pings that failed, if one did, and a number of 31 bits if none did.
pub rtems_ping-Tells :
    (valid opens : Bool) (send : ℕ → Option ℕ) (n : ℕ)
    → let r = rtems_ping valid opens send n in
      let f = failures send (n + 1) 0 in
      ((r ≡ neg (n + 2)) ↔ ((valid && opens) ≡ false))
      × ((is_neg r ≡ false) ↔ (((valid && opens) ≡ true) × (f ≡ 0)))
unfolding rtems_ping
rtems_ping-Tells valid opens send n = ground (arith, loop_failures send (n + 1) 0)
