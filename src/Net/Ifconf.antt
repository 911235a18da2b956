-- ===== src/Net/Ifconf.antt =====
-- miscUtils/ifconfi.c: `ifconf`, `ifattach` and `rtconf`, with the requests that they make of the network
-- stack. `aton` is `inet_aton`, with `none` for a text that is no address.
pub mod Interfaces
use rtems_ssrl_apps.Prelude.{
  ℕ, ◌+◌, ◌-◌, ◌^◌, Bool, true, false, not, ◌&&◌, Option, none, some, List, [], ◌∷◌, ◌++◌, ◌==◌,
  if◌then◌else◌, is_some,
}
use Prim.Native.Nat.{bit_and, bit_xor}
use rtems_ssrl_apps.Prelude.Int.{ℤ, pos, minus_one}

-- `~x` of a 32-bit word.
abbrev pub not32 : ℕ → ℕ
not32 x = 2 ^ 32 - 1 - x

-- A request on an interface, or the deletion of the route through it.
pub data Request : Type 0 where
  set_flags : (up : Bool) → Request
  get_addr : Request
  get_netmask : Request
  delete_route : (dst mask : ℕ) → Request
  set_addr : ℕ → Request
  set_netmask : ℕ → Request

-- The value returned and the requests made.
pub record Result : Type 0 where
  pub code : ℤ
  pub requests : List Request

abbrev result : ℤ → List Request → Result
result c rs = record { code = c; requests = rs }

-- The stack: which requests fail, and the address and netmask that it gives.
pub record Stack : Type 0 where
  pub fails : Request → Bool
  pub address : ℕ
  pub netmask : ℕ

-- `cleanup:` on an error: the interface is brought down.
abbrev cleanup : List Request → Result
cleanup rs = result minus_one (rs ++ set_flags false ∷ [])

-- `if (!addr)`: the interface has been brought down.
unfoldable pub bring_down : Stack → Result
bring_down s =
    let before = set_flags false ∷ get_addr ∷ [] in
    let route = delete_route (bit_and s.address s.netmask) s.netmask in
    if s.fails get_addr
    then result minus_one before
    else if s.fails get_netmask
    then result minus_one (before ++ get_netmask ∷ [])
    else result (if s.fails route then minus_one else pos 0) (before ++ get_netmask ∷ route ∷ [])

-- `if (msk_s)`, behind the requests `rs`.
unfoldable pub set_mask :
    Stack → (aton : List ℕ → Option ℕ) → Option (List ℕ) → List Request → Result
set_mask s aton none rs = result (pos 0) rs
set_mask s aton (some t) rs = elim (aton t) [
  | none ↦ cleanup rs
  | some m ↦
      let done = rs ++ set_netmask m ∷ [] in
      if s.fails (set_netmask m) then cleanup done else result (pos 0) done
]

-- The address and the mask of an interface that has been brought up.
unfoldable pub configure : Stack → (aton : List ℕ → Option ℕ) → List ℕ → Option (List ℕ) → Result
unfolding set_mask
configure s aton addr mask = elim (aton addr) [
  | none ↦ cleanup (set_flags true ∷ [])
  | some a ↦
      let done = set_flags true ∷ set_addr a ∷ [] in
      if s.fails (set_addr a) then cleanup done else set_mask s aton mask done
]

-- `named` is whether `nam` is given.
unfoldable pub ifconf :
    Stack → (aton : List ℕ → Option ℕ) → (named : Bool) → (addr mask : Option (List ℕ)) → Result
ifconf s aton named addr mask =
    let up = is_some addr in
    if not named
    then result minus_one []
    else if s.fails (set_flags up)
    then result minus_one (set_flags up ∷ [])
    else elim addr [ none ↦ bring_down s | some t ↦ configure s aton t mask ]

-- What `ifattach` does around the driver's function, and the value returned: `attached` is the driver's.
pub data Attach : Type 0 where
  obtain : Attach
  attach : Attach
  release : Attach

unfoldable pub ifattach : (named : Bool) → (attached : ℤ) → ℤ × List Attach
ifattach named attached =
    if named then (attached, obtain ∷ attach ∷ release ∷ []) else (minus_one, [])

-- A request on the routing table.
pub record Route : Type 0 where
  pub add : Bool
  pub dst : ℕ
  pub gateway : ℕ
  pub mask : ℕ
  pub has_gateway : Bool
  pub is_host : Bool

-- The classes of addresses: `inet_netof`, `inet_lnaof` and `inet_makeaddr`, where -1 is `2 ^ 32 - 1`.
pub record Classes : Type 0 where
  pub netof : ℕ → ℕ
  pub lnaof : ℕ → ℕ
  pub makeaddr : ℕ → ℕ → ℕ

-- An argument that may be left out: the address, with `none` for a text that is none. 0 is INADDR_ANY.
abbrev pub address_or_any : (aton : List ℕ → Option ℕ) → Option (List ℕ) → Option ℕ
address_or_any aton none = some 0
address_or_any aton (some t) = aton t

-- The mask and whether the route is one to a host.
abbrev pub mask_and_host : Classes → (masked : Bool) → (dst mask : ℕ) → ℕ × Bool
mask_and_host c masked dst mask =
    let net = c.netof dst in
    if masked
    then (mask, not (bit_and dst (not32 mask) == 0))
    else (not32 (bit_xor (c.makeaddr net 0) (c.makeaddr net (2 ^ 32 - 1))), not (c.lnaof dst == 0))

-- `refuses` is whether the routing table refuses a request. The value returned, and the request made.
unfoldable pub rtconf :
    Classes
    → (aton : List ℕ → Option ℕ) → (refuses : Route → Bool) → (add : Bool)
    → (dst gateway mask : Option (List ℕ)) → ℤ × Option Route
rtconf c aton refuses add none gateway mask = (minus_one, none)
rtconf c aton refuses add (some t) gateway mask = elim (aton t) [
  | none ↦ (minus_one, none)
  | some d ↦ elim (address_or_any aton gateway) [
    | none ↦ (minus_one, none)
    | some g ↦ elim (address_or_any aton mask) [
      | none ↦ (minus_one, none)
      | some m ↦
          let (n, host) = mask_and_host c (is_some mask) d m in
          let r : Route = record {
            add = add;
            dst = d;
            gateway = g;
            mask = n;
            has_gateway = is_some gateway;
            is_host = host;
          } in
          (if refuses r then minus_one else pos 0, some r)
    ]
  ]
]
