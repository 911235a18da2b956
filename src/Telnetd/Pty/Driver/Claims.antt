-- ===== src/Telnetd/Pty/Driver/Claims.antt =====
-- `telnet_get_pty` against a description of it: the first free slot is taken, or the socket closed.
use rtems_ssrl_apps.Prelude.{
  ℕ, suc, ◌+◌, ◌≡◌, refl, Bool, true, false, ◌⊎◌, inl, inr, Option, none, some, List, [], ◌∷◌,
  arith, if◌then◌else◌, Bool-cases,
}
use rtems_ssrl_apps.Prelude.Int.{ℤ, pos, is_neg}
use rtems_ssrl_apps.Telnetd.Pty.Slot.{Pty}
use rtems_ssrl_apps.Telnetd.Pty.Driver.{Driver, Call, close, set_rcvtimeo, claim, telnet_get_pty}

-- How many slots have no socket.
unfoldable pub free_count : List Pty → ℕ
free_count [] = 0
free_count (p ∷ ps) = (if is_neg p.socket then 1 else 0) + free_count ps

-- The first free slot of the first table holds the socket in the second; `name` is its device.
pub data Claimed (s : ℤ) (name : List ℕ) : List Pty → List Pty → Type 0 where
  here :
      {p : Pty} {ps : List Pty}
      → is_neg p.socket ≡ true
      → p.devname ≡ name
      → Claimed s name (p ∷ ps) (record p { socket = s } ∷ ps)
  there :
      {p : Pty} {ps qs : List Pty}
      → is_neg p.socket ≡ false
      → Claimed s name ps qs
      → Claimed s name (p ∷ ps) (p ∷ qs)

-- What a call of `telnet_get_pty` for the socket `s` promises of the name, the driver and the calls.
abbrev pub Granted : ℤ → Driver → Option (List ℕ) × Driver × List Call → Type 0
Granted s d (none, d', calls) =
    (d' ≡ d) × (calls ≡ close s ∷ []) × ((d.inited ≡ false) ⊎ (free_count d.ptys ≡ 0))
Granted s d (some name, d', calls) =
    Claimed s name d.ptys d'.ptys
    × (d.inited ≡ true)
    × (d'.inited ≡ true)
    × (calls ≡ set_rcvtimeo s 2 ∷ [])

-- `claim` and its description.
abbrev Claims : ℤ → List Pty → Option (List ℕ × List Pty) → Type 0
Claims s ps none = free_count ps ≡ 0
Claims s ps (some (name, qs)) = Claimed s name ps qs

claim-Claims : (s : ℤ) (ps : List Pty) → Claims s ps (claim s ps)
unfolding claim free_count
claim-Claims s [] = refl
claim-Claims s (p ∷ ps) = elim (Bool-cases (is_neg p.socket)) [
  | inl e ↦ rw e (here e refl)
  | inr e ↦ rw e (extend (claim s ps) (claim-Claims s ps) e)
]
  where
    extend :
        (r : Option (List ℕ × List Pty))
        → Claims s ps r
        → is_neg p.socket ≡ false
        → Claims s (p ∷ ps) (elim r [ none ↦ none | some (name, qs) ↦ some (name, p ∷ qs) ])
    extend none c e = let z : free_count ps ≡ 0 = c in rw e (omega arith)
    extend (some (name, qs)) c e = there e c

-- By the two states of the driver.
granted :
    (s : ℤ) (loaded : Bool) (ps : List Pty)
    → let d : Driver = record { inited = loaded; ptys = ps } in Granted s d (telnet_get_pty s d)
unfolding telnet_get_pty
granted s false ps = (refl, refl, inl refl)
granted s true ps = served (claim s ps) (claim-Claims s ps)
  where
    served :
        (r : Option (List ℕ × List Pty))
        → Claims s ps r
        → let d : Driver = record { inited = true; ptys = ps } in
          Granted s d (elim r [
            | none ↦ (none, d, close s ∷ [])
            | some (name, qs) ↦ (some name, record d { ptys = qs }, set_rcvtimeo s 2 ∷ [])
          ])
    served none c = (refl, refl, inr c)
    served (some (name, qs)) c = (c, refl, refl, refl)

-- A call either gives the first free slot to the socket, touches no other slot and sets the
-- socket's timeout, or, if the driver is not loaded or no slot is free, closes the socket and
-- leaves the driver as it was.
pub telnet_get_pty-Granted : (s : ℤ) (d : Driver) → Granted s d (telnet_get_pty s d)
telnet_get_pty-Granted s d = granted s d.inited d.ptys

-- A slot that is given out is one free slot less.
pub free_count-Claimed :
    (s : ℕ) {name : List ℕ} {ps qs : List Pty}
    → Claimed (pos s) name ps qs
    → free_count ps ≡ suc (free_count qs)
unfolding free_count
free_count-Claimed s (here e n) = rw e (omega arith)
free_count-Claimed s (there e c) = rw e (omega (arith, free_count-Claimed s c))
