-- ===== src/Tests/Ifconf.antt =====
-- Runs of the configuration of interfaces and routes.
use rtems_ssrl_apps.Prelude.{
  ℕ, ◌≡◌, refl, Bool, true, false, Option, none, some, List, length, codes, ltb,
}
use rtems_ssrl_apps.Prelude.Int.{pos}
use rtems_ssrl_apps.Net.Ifconf.{Request, set_netmask, Stack, ifconf, Classes, Route, rtconf}
use rtems_ssrl_apps.Net.Ifconf.Interfaces.{Interface, Settled, ifconf-Atomic}

-- The netmask cannot be set.
abbrev no_mask : Request → Bool
no_mask (set_netmask _) = true
no_mask _ = false

abbrev stack : Stack
stack = record { fails = no_mask; address = 0x0a000001; netmask = 0xff000000 }

abbrev iface : Interface
iface = record { up = true; addr = 1; mask = 2 }

-- A text is an address if it has seven bytes or more.
abbrev parse : List ℕ → Option ℕ
parse t = elim (ltb (length t) 7) [ true ↦ none | false ↦ some (length t) ]

ifconf-Atomic_example :
    Settled stack parse
      (codes "10.0.0.1")
      (some (codes "255.0.0.0"))
      iface
      (ifconf stack parse true (some (codes "10.0.0.1")) (some (codes "255.0.0.0")))
ifconf-Atomic_example =
    ifconf-Atomic stack parse (codes "10.0.0.1") (some (codes "255.0.0.0")) iface refl refl

abbrev classes : Classes
classes = record { netof = λ a. 0; lnaof = λ a. a; makeaddr = λ n h. h }

-- The table takes routes to hosts.
abbrev only_hosts : Route → Bool
only_hosts r = elim r.is_host [ true ↦ false | false ↦ true ]

rtconf_zero : (rtconf classes parse only_hosts true (some (codes "10.0.0.1")) none none).0 ≡ pos 0
unfolding rtconf
rtconf_zero = refl
