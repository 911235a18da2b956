-- ===== src/Net/Traceroute.antt =====
-- miscUtils/traceroute.c: the frames that are sent, the loop over the hops and the results.
pub mod Frame
pub mod Hops
pub mod Results
use rtems_ssrl_apps.Prelude.{
  ℕ, zero, suc, ◌+◌, ◌*◌, ◌/◌, ◌%◌, ◌^◌, Bool, true, false, not, ◌&&◌, ◌||◌, Option, none, some,
  List, [], ◌∷◌, ◌==◌, ltb, if◌then◌else◌, length,
}
use rtems_ssrl_apps.Prelude.Int.{ℤ, pos, negsuc, is_neg}
use rtems_ssrl_apps.Net.Checksum.{ip_cksum}

abbrev pub max_retries : ℕ
max_retries = 10

-- ICMP_ECHOREPLY and ICMP_TIME_EXCEEDED.
abbrev pub icmp_echoreply : ℕ
icmp_echoreply = 0

abbrev pub icmp_time_exceeded : ℕ
icmp_time_exceeded = 11

-- A packet that `recvfrom` returns: the number of bytes, the ICMP header's fields, and the sender.
pub record Packet : Type 0 where
  pub size : ℕ
  pub icmp_type : ℕ
  pub icmp_code : ℕ
  pub icmp_id : ℕ
  pub from : ℕ

-- What comes behind the packets of a list: `recvfrom` returns 0, runs into the timeout of the socket, or
-- fails; or packets that are not ours arrive without end, each before the timeout, which `goto recvagain`
-- starts again.
pub data Last : Type 0 where
  empty : Last
  timed_out : Last
  recv_failed : Last
  endless : Last

-- What the system does in one turn of the loop: the frame is not sent, or the packets received.
pub data Attempt : Type 0 where
  send_failed : Attempt
  waited : List Packet → Last → Attempt

-- How a turn goes on: again for the same hop, with the next hop, with a node, or never.
pub data Turn : Type 0 where
  retry : Turn
  next : Turn
  node : Packet → Turn
  hangs : Turn

-- The two tests behind which `goto recvagain` stands. `ident` is the identifier of the probes.
abbrev pub is_ours : (ident : ℕ) → Packet → Bool
is_ours ident p =
    not (ltb p.size 28)
    && (p.icmp_type == icmp_echoreply || (p.icmp_type == icmp_time_exceeded || p.icmp_id == ident))

unfoldable pub receive : (ident : ℕ) → List Packet → Last → Turn
receive ident [] empty = next
receive ident [] timed_out = next
receive ident [] recv_failed = retry
receive ident [] endless = hangs
receive ident (p ∷ ps) l = let rest = receive ident ps l in if is_ours ident p then node p else rest

unfoldable pub attempt : (ident : ℕ) → Attempt → Turn
unfolding receive
attempt ident send_failed = retry
attempt ident (waited ps l) = receive ident ps l

-- What becomes of one hop, with the number of the next turn: its retries are used up, it stays unknown,
-- it is a node on the way, or the destination; or the wait in it does not end.
pub data Hop : Type 0 where
  lost : ℕ → Hop
  unknown : ℕ → Hop
  passed : (from turn : ℕ) → Hop
  arrived : (from turn : ℕ) → Hop
  stuck : Hop

abbrev pub classify : (dest : ℕ) → Packet → ℕ → Hop
classify dest p n =
    if p.icmp_code == icmp_echoreply && p.from == dest then arrived p.from n else passed p.from n

module _ (dest ident : ℕ) (world : ℕ → Attempt) where
  -- The turns of one hop, with the retries that are left, from the turn `n` on.
  unfoldable pub try_hop : (retries n : ℕ) → Hop
  unfolding attempt
  try_hop zero n = lost n
  try_hop (suc retries) n = elim (attempt ident (world n)) [
    | retry ↦ try_hop retries (suc n)
    | next ↦ unknown (suc n)
    | node p ↦ classify dest p (suc n)
    | hangs ↦ stuck
  ]

-- The result: the hops left of `max_hops`, the nodes in order, `result->hops`, the turns taken and the
-- `ttl` of each hop that was probed.
pub record Trace : Type 0 where
  pub left : ℕ
  pub nodes : List ℕ
  pub hops : ℕ
  pub turns : ℕ
  pub ttls : List ℕ

-- A node before the rest of the trace.
abbrev pub with_node : ℕ → Option Trace → Option Trace
with_node a none = none
with_node a (some t) = some (record t { nodes = a ∷ t.nodes; hops = t.hops + 1 })

abbrev pub with_ttl : ℕ → Option Trace → Option Trace
with_ttl ttl none = none
with_ttl ttl (some t) = some (record t { ttls = ttl ∷ t.ttls })

abbrev pub ended : ℕ → ℕ → Trace
ended h n = record { left = h; nodes = []; hops = 0; turns = n; ttls = [] }

-- A turn that is not a retry: `rest` is the loop from the next hop on.
abbrev pub after_hop : ℕ → Hop → (ℕ → Option Trace) → Option Trace
after_hop h stuck rest = none
after_hop h (lost m) rest = some (ended (suc h) m)
after_hop h (unknown m) rest = rest m
after_hop h (passed a m) rest = with_node a (rest m)
after_hop h (arrived a m) rest = with_node a (some (ended (suc h) m))

module _ (dest ident : ℕ) (world : ℕ → Attempt) where
  -- The loop: `h` hops are left, `n` is the number of the turn; `none` is a wait that does not end.
  unfoldable pub trace : (h n ttl : ℕ) → Option Trace
  trace zero n ttl = some (ended 0 n)
  trace (suc h) n ttl =
      with_ttl ttl
        (after_hop h (try_hop dest ident world max_retries n) (λ m. trace h m ((ttl + 1) % 2 ^ 8)))

-- The calls of `_tr_open`: the descriptor and what the calls on it return.
pub record Setup : Type 0 where
  pub fd : ℤ
  pub rcvtimeo : ℤ
  pub sndtimeo : ℤ
  pub hdrincl : ℤ
  pub getsockname : ℤ

-- Whether the socket is open, and how often it is closed.
unfoldable pub tr_open : Setup → Bool × ℕ
tr_open s =
    if is_neg s.fd
    then (false, 0)
    else if is_neg s.rcvtimeo
    then (false, 1)
    else if is_neg s.sndtimeo
    then (false, 1)
    else if is_neg s.hdrincl
    then (false, 1)
    else if is_neg s.getsockname
    then (false, 1)
    else (true, 0)

-- `max_hops` as the loop takes it, which does not run for a negative number.
abbrev pub to_hops : ℤ → ℕ
to_hops (pos n) = n
to_hops (negsuc _) = 0

-- The value returned, the result that `*resptr` is set to, how often the socket is closed, and how many
-- blocks of memory are allocated and freed: one for the result and one for each node.
pub record Outcome : Type 0 where
  pub ok : Bool
  pub result : Option Trace
  pub closes : ℕ
  pub allocated : ℕ
  pub freed : ℕ

-- What `do_traceroute` makes of the socket and the trace.
unfoldable pub conclude : Bool × ℕ → Trace → Outcome
conclude (false, closes) t = record {
  ok = false;
  result = none;
  closes = closes;
  allocated = 0;
  freed = 0;
}
conclude (true, closes) t =
    let blocks = 1 + length t.nodes in
    if ltb 0 t.left
    then record { ok = true; result = some t; closes = closes + 1; allocated = blocks; freed = 0 }
    else record { ok = false; result = none; closes = closes + 1; allocated = blocks; freed = 1 }

-- Without a socket, there is no loop.
abbrev pub conclude_all : Bool × ℕ → Option Trace → Option Outcome
conclude_all (false, closes) t = some (conclude (false, closes) (ended 0 0))
conclude_all (true, closes) none = none
conclude_all (true, closes) (some t) = some (conclude (true, closes) t)

unfoldable pub do_traceroute :
    (dest ident : ℕ) → (ℕ → Attempt) → Setup → (max_hops : ℤ) → Option Outcome
do_traceroute dest ident world s max_hops =
    conclude_all (tr_open s) (trace dest ident world (to_hops max_hops) 0 1)

-- `traceroute_result_free`: the blocks that it frees.
unfoldable pub traceroute_result_free : Option Trace → ℕ
traceroute_result_free none = 0
traceroute_result_free (some t) = length t.nodes + 1

-- `traceroute`, with the options of `traceroute_opts_init`: the blocks allocated and freed.
unfoldable pub traceroute : (dest ident : ℕ) → (ℕ → Attempt) → Setup → Option (ℕ × ℕ)
traceroute dest ident world s = elim (do_traceroute dest ident world s (pos 128)) [
  | none ↦ none
  | some o ↦ some (o.allocated, o.freed + traceroute_result_free o.result)
]
