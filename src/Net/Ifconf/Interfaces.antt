-- ===== src/Net/Ifconf/Interfaces.antt =====
-- What `ifconf` of miscUtils/ifconfi.c makes of an interface, and `rtconf` of the routing table.
use rtems_ssrl_apps.Prelude.{
  ℕ, ◌≡◌, ◌↔◌, ◌⊎◌, refl, sym, Bool, true, false, Option, none, some, List, [], ◌∷◌, arith,
  if◌then◌else◌, is_some, inl, inr, Bool-cases, Option-cases,
}
use Prim.Native.Nat.{bit_and}
use mathlib.Core.Path.{subst}
use rtems_ssrl_apps.Prelude.Int.{pos, minus_one}
use rtems_ssrl_apps.Net.Ifconf.{
  Request, set_flags, get_addr, get_netmask, delete_route, set_addr, set_netmask, Result, Stack,
  bring_down, set_mask, configure, ifconf, Classes, Route, rtconf, address_or_any, mask_and_host,
}

-- An interface, as the requests that do not fail change it.
pub record Interface : Type 0 where
  pub up : Bool
  pub addr : ℕ
  pub mask : ℕ

abbrev change : Request → Interface → Interface
change (set_flags b) i = record i { up = b }
change (set_addr a) i = record i { addr = a }
change (set_netmask m) i = record i { mask = m }
change get_addr i = i
change get_netmask i = i
change (delete_route _ _) i = i

abbrev pub apply : (Request → Bool) → List Request → Interface → Interface
apply fails [] i = i
apply fails (r ∷ rs) i = apply fails rs (if fails r then i else change r i)

-- The mask that `ifconf` is to set: the one given, or the one there was.
abbrev wanted_mask : (List ℕ → Option ℕ) → Option (List ℕ) → ℕ → Option ℕ
wanted_mask aton none old = some old
wanted_mask aton (some t) old = aton t

-- What a result leaves of an interface that was given an address and maybe a mask.
abbrev pub Settled :
    Stack → (List ℕ → Option ℕ) → List ℕ → Option (List ℕ) → Interface → Result → Type 0
Settled s aton t mask i r =
    let j = apply s.fails r.requests i in
    ((r.code ≡ pos 0)
      × (j.up ≡ true)
      × (aton t ≡ some j.addr)
      × (wanted_mask aton mask i.mask ≡ some j.mask))
    ⊎ ((r.code ≡ minus_one) × (j.up ≡ false))

module _ (s : Stack) (aton : List ℕ → Option ℕ) (t : List ℕ) (i : Interface)
    (u : s.fails (set_flags true) ≡ false) (d : s.fails (set_flags false) ≡ false) where
  set_mask-Settled :
      (mask : Option (List ℕ)) {a : ℕ}
      → aton t ≡ some a
      → s.fails (set_addr a) ≡ false
      → Settled s aton t mask i (set_mask s aton mask (set_flags true ∷ set_addr a ∷ []))
  unfolding set_mask
  set_mask-Settled none p q = rw (u, q) (inl (refl, refl, p, refl))
  set_mask-Settled (some w) {a} p q = elim (Option-cases (aton w)) [
    | inl n ↦ rw (n, d, set_mask) (inr (refl, refl))
    | inr (m, n) ↦ elim (Bool-cases (s.fails (set_netmask m))) [
      | inl f ↦ rw (n, f, d, set_mask) (inr (refl, refl))
      | inr f ↦ rw (n, f, u, q, f, set_mask) (inl (refl, refl, p, refl))
    ]
  ]

  configure-Settled : (mask : Option (List ℕ)) → Settled s aton t mask i (configure s aton t mask)
  unfolding configure
  configure-Settled mask = elim (Option-cases (aton t)) [
    | inl n ↦ rw (n, d, configure) (inr (refl, refl))
    | inr (a, n) ↦ elim (Bool-cases (s.fails (set_addr a))) [
      | inl f ↦ rw (n, f, d, configure) (inr (refl, refl))
      | inr f ↦
          let e : configure s aton t mask
              ≡ set_mask s aton mask (set_flags true ∷ set_addr a ∷ []) =
            rw (n, f, configure) refl in
          subst (Settled s aton t mask i) (sym e) (set_mask-Settled mask n f)
    ]
  ]

-- Given an address, `ifconf` leaves the interface up with that address and mask and returns 0, or leaves
-- it down and returns -1, if neither the request to bring it up nor that to bring it down fails.
pub ifconf-Atomic :
    (s : Stack) (aton : List ℕ → Option ℕ) (t : List ℕ) (mask : Option (List ℕ)) (i : Interface)
    → s.fails (set_flags true) ≡ false
    → s.fails (set_flags false) ≡ false
    → Settled s aton t mask i (ifconf s aton true (some t) mask)
unfolding ifconf
ifconf-Atomic s aton t mask i u d = rw (u, ifconf) (configure-Settled s aton t i u d mask)

-- Without an address, `ifconf` of an interface that can be brought down leaves it down with its address
-- and mask, whatever else fails; it returns 0 exactly if the address and the netmask can be read and the
-- route to the network that they make can be deleted.
pub ifconf-Down :
    (s : Stack) (aton : List ℕ → Option ℕ) (mask : Option (List ℕ)) (i : Interface)
    → s.fails (set_flags false) ≡ false
    → let r = ifconf s aton true none mask in
      (apply s.fails r.requests i ≡ record i { up = false })
      × ((r.code ≡ pos 0) ↔ (
          (s.fails get_addr ≡ false)
          × (s.fails get_netmask ≡ false)
          × (s.fails (delete_route (bit_and s.address s.netmask) s.netmask) ≡ false)))
unfolding ifconf bring_down
ifconf-Down s aton mask i d = elim (Bool-cases (s.fails get_addr)) [
  | inl a ↦ rw (d, a) (ground arith, ground arith)
  | inr a ↦ elim (Bool-cases (s.fails get_netmask)) [
    | inl n ↦ rw (d, a, n) (ground arith, ground arith)
    | inr n ↦ elim (Bool-cases (s.fails (delete_route (bit_and s.address s.netmask) s.netmask))) [
      | inl e ↦ rw (d, a, n, e) (ground arith, ground arith)
      | inr e ↦ rw (d, a, n, e) (ground arith, ground arith)
    ]
  ]
]

-- The request that the addresses, the mask of their class or the one given, and the flag make.
abbrev pub route_of : Classes → Bool → (dst gateway mask : ℕ) → (has_gateway masked : Bool) → Route
route_of c add d g m has_gateway masked =
    let n = mask_and_host c masked d m in
    record { add = add; dst = d; gateway = g; mask = n.0; has_gateway = has_gateway; is_host = n.1 }

-- `rtconf` returns 0 exactly if all the addresses that it is given are addresses and the table takes the
-- request that they make.
pub rtconf-Requests :
    (c : Classes) (aton : List ℕ → Option ℕ) (refuses : Route → Bool) (add : Bool) (dst : List ℕ)
    (gateway mask : Option (List ℕ))
    → let (code, made) = rtconf c aton refuses add (some dst) gateway mask in
      (code ≡ pos 0) ↔ (
        (d : ℕ) × (g : ℕ) × (m : ℕ) × (aton dst ≡ some d)
        × (address_or_any aton gateway ≡ some g)
        × (address_or_any aton mask ≡ some m)
        × (refuses (route_of c add d g m (is_some gateway) (is_some mask)) ≡ false))
unfolding rtconf
rtconf-Requests c aton refuses add dst gateway mask = elim (Option-cases (aton dst)) [
  | inl e ↦ ground arith
  | inr (d, e) ↦ elim (Option-cases (address_or_any aton gateway)) [
    | inl f ↦ ground arith
    | inr (g, f) ↦ elim (Option-cases (address_or_any aton mask)) [
      | inl h ↦ ground arith
      | inr (m, h) ↦ (
        (λ k. (d, g, m, e, f, h, ground arith)),
        (λ (d', g', m', e', f', h', k).
            let p : d ≡ d' = ground arith in
            let q : g ≡ g' = ground arith in
            let r : m ≡ m' = ground arith in rw (e', f', h', k, rtconf) refl),
      )
    ]
  ]
]
