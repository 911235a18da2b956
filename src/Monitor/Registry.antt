-- ===== src/Monitor/Registry.antt =====
-- `CallUtils` of monitor/call.cc: the objects of the class, of which the first one makes the mutex and
-- registers the commands.
use rtems_ssrl_apps.Prelude.{
  ℕ, suc, ◌+◌, ◌-◌, ◌*◌, ◌≡◌, ◌≤◌, ◌<◌, Bool, false, arith, ◌==◌, if◌then◌else◌,
}

-- The static `nest`, the mutexes made and not deleted, and the commands inserted and not erased.
pub record Registry : Type 0 where
  pub nest : ℕ
  pub mutexes : ℕ
  pub commands : ℕ

-- `NUMBEROF(entries)`.
abbrev pub entries : ℕ
entries = 4

-- `CallUtils()`: the test of `nest++` is on the old value.
unfoldable pub call_utils : Registry → Registry
call_utils r =
    if r.nest == 0
    then record { nest = r.nest + 1; mutexes = r.mutexes + 1; commands = r.commands + entries }
    else record r { nest = r.nest + 1 }

-- `~CallUtils()` of an object that lives, so that `nest` is not 0. `keeps` is RTEMS 4.9.99 or later.
unfoldable pub destroy_call_utils : (keeps : Bool) → Registry → Registry
destroy_call_utils keeps r =
    if r.nest - 1 == 0
    then (if keeps
        then record r { nest = r.nest - 1 + 1 }
        else record { nest = r.nest - 1; mutexes = r.mutexes - 1; commands = r.commands - entries })
    else record r { nest = r.nest - 1 }

-- What the objects have made of the registry, where so many of them live.
pub data Lives (keeps : Bool) : ℕ → Registry → Type 0 where
  start : Lives keeps 0 (record { nest = 0; mutexes = 0; commands = 0 })
  construct : {n : ℕ} {r : Registry} → Lives keeps n r → Lives keeps (suc n) (call_utils r)
  destroy :
      {n : ℕ} {r : Registry} → Lives keeps (suc n) r → Lives keeps n (destroy_call_utils keeps r)

pub record IsRegistry (keeps : Bool) (n : ℕ) (r : Registry) : Type 0 where
  pub once : r.mutexes ≤ 1
  pub all : r.commands ≡ entries * r.mutexes
  pub made : 0 < n → r.mutexes ≡ 1
  pub counted : n ≤ r.nest
  pub held : 0 < r.nest → r.mutexes ≡ 1
  pub none_held : r.nest ≡ 0 → r.mutexes ≡ 0
  pub exact : keeps ≡ false → r.nest ≡ n

-- While an object lives there is one mutex and each command is registered once; with the last one both
-- go, before RTEMS 4.9.99.
pub Lives-IsRegistry :
    (keeps : Bool) {n : ℕ} {r : Registry} → Lives keeps n r → IsRegistry keeps n r
unfolding call_utils destroy_call_utils
Lives-IsRegistry keeps start = ground arith
Lives-IsRegistry keeps (construct {n = n} {r = r} l) = ground (arith, Lives-IsRegistry keeps l)
Lives-IsRegistry keeps (destroy {n = n} {r = r} l) = ground (arith, Lives-IsRegistry keeps l)
