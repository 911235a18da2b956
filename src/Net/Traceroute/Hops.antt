-- ===== src/Net/Traceroute/Hops.antt =====
-- The bounds of the loop of `do_traceroute`.
use rtems_ssrl_apps.Prelude.{
  ℕ, zero, suc, refl, ap, ◌≢◌, ◌||◌, Bool, true, false, Option, none, some, Bool-cases, inl, inr,
  ◌+◌, ◌*◌, ◌%◌, ◌^◌, ◌≤◌, ◌≡◌, List, [], ◌∷◌, arith, length,
}
use rtems_ssrl_apps.Net.Traceroute.{
  Attempt, send_failed, waited, Last, empty, timed_out, recv_failed, endless, hangs, is_ours,
  receive, attempt, stuck, with_node, Hop, lost, unknown, passed, arrived, Packet, classify,
  try_hop, after_hop, with_ttl, Trace, trace,
}

-- The number of the turn behind a hop.
abbrev turn_of : Hop → ℕ
turn_of stuck = 0
turn_of (lost n) = n
turn_of (unknown n) = n
turn_of (passed _ n) = n
turn_of (arrived _ n) = n

abbrev count_from : ℕ → ℕ → List ℕ
count_from a zero = []
count_from a (suc n) = a ∷ count_from (a + 1) n

-- What holds of the trace of `h` hops from the turn `n` and the `ttl` on.
pub record Bounded (h n ttl : ℕ) (t : Trace) : Type 0 where
  pub left_le : t.left ≤ h
  pub hops_nodes : t.hops ≡ length t.nodes
  pub hops_le : t.hops ≤ length t.ttls
  pub probed : (h ≤ t.left + length t.ttls) × (t.left + length t.ttls ≤ h + 1) × (length t.ttls ≤ h)
  pub turns_le : t.turns ≤ n + 10 * length t.ttls
  pub ttls_count : ttl + h ≤ 256 → t.ttls ≡ count_from ttl (length t.ttls)

-- A trace that ends, within its bounds.
abbrev pub EndsBounded : (h n ttl : ℕ) → Option Trace → Type 0
EndsBounded h n ttl o = (t : Trace) × (o ≡ some t) × Bounded h n ttl t

after_hop-Bounded :
    (h n ttl : ℕ) (hop : Hop) (rest : ℕ → Option Trace)
    → hop ≢ stuck
    → turn_of hop ≤ n + 10
    → ((m : ℕ) → EndsBounded h m ((ttl + 1) % 2 ^ 8) (rest m))
    → EndsBounded (suc h) n ttl (with_ttl ttl (after_hop h hop rest))
after_hop-Bounded h n ttl stuck rest s l b = absurd (s refl)
after_hop-Bounded h n ttl (lost m) rest s l b = (_, refl, ground arith)
after_hop-Bounded h n ttl (unknown m) rest s l b =
    let (t, e, c) = b m in (_, ap (with_ttl ttl) e, ground (arith, c))
after_hop-Bounded h n ttl (passed a m) rest s l b =
    let (t, e, c) = b m in (_, ap (λ o. with_ttl ttl (with_node a o)) e, ground (arith, c))
after_hop-Bounded h n ttl (arrived a m) rest s l b = (_, refl, ground arith)

-- A wait ends: some packet is ours, or packets do not arrive without end.
abbrev pub has_ours : (ident : ℕ) → List Packet → Bool
has_ours ident [] = false
has_ours ident (p ∷ ps) = is_ours ident p || has_ours ident ps

abbrev pub Ends : (ident : ℕ) → Attempt → Type 0
Ends ident (waited ps endless) = has_ours ident ps ≡ true
Ends ident _ = Unit {0}

later-Ends :
    (ident : ℕ) (p : Packet) (ps : List Packet) (l : Last)
    → is_ours ident p ≡ false
    → Ends ident (waited (p ∷ ps) l)
    → Ends ident (waited ps l)
later-Ends ident p ps empty o e = tt
later-Ends ident p ps timed_out o e = tt
later-Ends ident p ps recv_failed o e = tt
later-Ends ident p ps endless o e = ground arith

receive-Ends :
    (ident : ℕ) (ps : List Packet) (l : Last)
    → Ends ident (waited ps l)
    → receive ident ps l ≢ hangs
unfolding receive
receive-Ends ident [] empty e = λ q. ground arith
receive-Ends ident [] timed_out e = λ q. ground arith
receive-Ends ident [] recv_failed e = λ q. ground arith
receive-Ends ident [] endless e = λ q. ground arith
receive-Ends ident (p ∷ ps) l e = elim (Bool-cases (is_ours ident p)) [
  | inl o ↦ λ q. ground arith
  | inr o ↦ λ q. receive-Ends ident ps l (later-Ends ident p ps l o e) (ground arith)
]

receive_hangs :
    (ident : ℕ) (ps : List Packet) → has_ours ident ps ≡ false → receive ident ps endless ≡ hangs
unfolding receive
receive_hangs ident [] o = refl
receive_hangs ident (p ∷ ps) o =
    let e : is_ours ident p ≡ false = ground arith in
    let f : has_ours ident ps ≡ false = ground arith in rw e (receive_hangs ident ps f)

attempt-Ends : (ident : ℕ) (a : Attempt) → Ends ident a → attempt ident a ≢ hangs
unfolding attempt
attempt-Ends ident send_failed e = λ q. ground arith
attempt-Ends ident (waited ps l) e = receive-Ends ident ps l e

module _ (dest ident : ℕ) (world : ℕ → Attempt) where
  classify_turn : (p : Packet) (n : ℕ) → turn_of (classify dest p n) ≡ n
  classify_turn p n = ground arith

  try_hop_turns : (r n : ℕ) → turn_of (try_hop dest ident world r n) ≤ n + r
  unfolding try_hop
  try_hop_turns zero n = omega arith
  try_hop_turns (suc r) n = ground (arith, try_hop_turns r (suc n))

  try_hop-Ends : ((n : ℕ) → Ends ident (world n)) → (r n : ℕ) → try_hop dest ident world r n ≢ stuck
  unfolding try_hop
  try_hop-Ends w zero n = λ q. ground arith
  try_hop-Ends w (suc r) n =
      let a = attempt-Ends ident (world n) (w n) in ground (arith, a, try_hop-Ends w r (suc n))

  -- Where each wait for an answer ends, a trace ends: it takes ten turns at most for each hop that it probes,
  -- probes no more than `h` of them, with the ttl counting up, and finds one node at most for each. A wait
  -- ends if one of its packets is an echo reply, says that the time is exceeded or has the identifier of the
  -- probes, or if packets do not arrive without end.
  pub trace-Bounded :
      ((n : ℕ) → Ends ident (world n))
      → (h n ttl : ℕ) → EndsBounded h n ttl (trace dest ident world h n ttl)
  unfolding trace
  trace-Bounded w zero n ttl = (_, refl, ground arith)
  trace-Bounded w (suc h) n ttl =
      after_hop-Bounded h n ttl (try_hop dest ident world 10 n) _ (try_hop-Ends w 10 n)
        (try_hop_turns 10 n) (λ m. trace-Bounded w h m ((ttl + 1) % 2 ^ 8))

  try_hop_stuck :
      (r n : ℕ) (ps : List Packet)
      → world n ≡ waited ps endless
      → has_ours ident ps ≡ false
      → try_hop dest ident world (suc r) n ≡ stuck
  unfolding try_hop attempt
  try_hop_stuck r n ps w o = rw (w, try_hop, receive_hangs ident ps o) refl

  -- If packets that are not ours arrive without end, the trace does not.
  pub trace_hangs :
      (h n ttl : ℕ) (ps : List Packet)
      → world n ≡ waited ps endless
      → has_ours ident ps ≡ false
      → trace dest ident world (suc h) n ttl ≡ none
  unfolding trace
  trace_hangs h n ttl ps w o =
      ap (λ x. with_ttl ttl (after_hop h x (λ m. trace dest ident world h m ((ttl + 1) % 2 ^ 8))))
        (try_hop_stuck 9 n ps w o)
