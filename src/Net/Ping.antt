-- ===== src/Net/Ping.antt =====
-- miscUtils/icmpping.c: a ping's life, from `rtems_ping_open` to `rtems_ping_close`, one request with
-- the wait for its answer, and the loop of `rtems_ping`.
pub mod Blocks
pub mod Replies
pub mod Verdict
use rtems_ssrl_apps.Prelude.{
  ℕ, zero, suc, ◌+◌, ◌-◌, ◌*◌, ◌/◌, ◌%◌, ◌^◌, Bool, true, false, not, ◌&&◌, Option, none, some,
  List, [], ◌∷◌, ◌==◌, ltb, leb, if◌then◌else◌,
}
use rtems_ssrl_apps.Prelude.Int.{ℤ, pos, negsuc, is_neg}

-- `-k` for a count `k`.
abbrev pub neg : ℕ → ℤ
neg zero = pos 0
neg (suc k) = negsuc k

-- `rtems_ping_pattern`: the `size` bytes from `n` up.
unfoldable pub pattern_from : (size n : ℕ) → List ℕ
pattern_from zero n = []
pattern_from (suc size) n = n % 2 ^ 8 ∷ pattern_from size (n + 1)

unfoldable pub rtems_ping_pattern : (payload_size seq : ℕ) → List ℕ
unfolding pattern_from
rtems_ping_pattern payload_size seq = pattern_from payload_size (0x80 + seq)

-- The payload of a configuration: 64 - ICMP_MINLEN bytes at least.
abbrev pub payload_of : ℕ → ℕ
payload_of size = if ltb size 56 then 56 else size

-- What `rtems_ping_open` and `rtems_ping_close` see of a ping: which buffers it has, and its socket.
pub record Ping : Type 0 where
  pub has_req : Bool
  pub has_resp : Bool
  pub payload_size : ℕ
  pub socket : ℤ

-- The system's answers to `rtems_ping_open`: the three `calloc` and `socket`.
pub record Setup : Type 0 where
  pub calloc_ping : Bool
  pub calloc_req : Bool
  pub calloc_resp : Bool
  pub socket : ℤ

abbrev pub count : Bool → ℕ
count b = if b then 1 else 0

abbrev pub above_2 : ℤ → Bool
above_2 (pos n) = ltb 2 n
above_2 (negsuc _) = false

-- The blocks freed, and how often the socket is closed.
unfoldable pub rtems_ping_close : Option Ping → ℕ × ℕ
rtems_ping_close none = (0, 0)
rtems_ping_close (some p) = (count p.has_resp + count p.has_req + 1, count (above_2 p.socket))

abbrev pub is_minus_one : ℤ → Bool
is_minus_one (pos _) = false
is_minus_one (negsuc n) = n == 0

-- The ping, the blocks allocated, the blocks freed, and how often a socket is closed.
pub record Opened : Type 0 where
  pub ping : Option Ping
  pub allocated : ℕ
  pub freed : ℕ
  pub closes : ℕ

-- `rtems_ping_close(ping); return NULL;`
fail_open : ℕ → Option Ping → Opened
unfolding rtems_ping_close
fail_open allocated p =
    let (freed, closes) = rtems_ping_close p in
    record { ping = none; allocated = allocated; freed = freed; closes = closes }

-- `calloc` leaves the socket 0 until `socket` is called.
unfoldable pub rtems_ping_open : Setup → (payload_size : ℕ) → Opened
unfolding fail_open
rtems_ping_open s payload_size =
    let p : Ping = record {
      has_req = s.calloc_req;
      has_resp = s.calloc_resp;
      payload_size = payload_of payload_size;
      socket = pos 0;
    } in
    let q = record p { socket = s.socket } in
    let blocks = 1 + count s.calloc_req + count s.calloc_resp in
    if not s.calloc_ping
    then fail_open 0 none
    else if not (s.calloc_req && s.calloc_resp)
    then fail_open blocks (some p)
    else if is_minus_one s.socket
    then fail_open blocks (some q)
    else record { ping = some q; allocated = blocks; freed = 0; closes = 0 }

-- What `rtems_ping_send` returns: 0, ETIMEDOUT, EIO or -1.
pub data Code : Type 0 where
  success : Code
  timed_out : Code
  io_error : Code
  failed : Code

-- A packet received at the tick `now`: the ICMP header, the sender, whether its data are those sent.
-- `set` is whether the timeout of the socket could be set before.
pub record Reply : Type 0 where
  pub set : Bool
  pub now : ℕ
  pub is_echoreply : Bool
  pub id : ℕ
  pub seq : ℕ
  pub from : ℕ
  pub same_data : Bool

-- A request: its identifier, sequence number and destination, the tick it is sent at, and the
-- microseconds of a tick.
pub record Request : Type 0 where
  pub id : ℕ
  pub seq : ℕ
  pub dest : ℕ
  pub send_time : ℕ
  pub us_per_tick : ℕ

abbrev pub is_answer : Request → Reply → Bool
is_answer q r = r.is_echoreply && (r.id == q.id && (r.seq == q.seq && r.from == q.dest))

-- `send_time + sec * tps + usec * tps / 1000000` in 32 bits.
abbrev pub deadline : (send_time sec usec tps : ℕ) → ℕ
deadline send_time sec usec tps = (send_time + sec * tps + usec * tps / 1000000) % 2 ^ 32

-- `(rtems_interval)((int)rcv_time - (int)send_time) * uspt`.
abbrev pub trip_time : Request → ℕ → ℕ
trip_time q rcv_time = (rcv_time + 2 ^ 32 - q.send_time) % 2 ^ 32 * q.us_per_tick % 2 ^ 32

-- The wait for the answer, from the tick `rcv_time` on. Behind the packets received, `recvfrom` runs into
-- the timeout. With the code, the trip time, if it is set.
unfoldable pub wait : Request → (timeout rcv_time : ℕ) → List Reply → Code × Option ℕ
wait q timeout rcv_time [] = (timed_out, none)
wait q timeout rcv_time (r ∷ rs) =
    let rest = wait q timeout r.now rs in
    if leb timeout rcv_time
    then (timed_out, none)
    else if not r.set
    then (failed, none)
    else if is_answer q r
    then (if r.same_data then success else io_error, some (trip_time q r.now))
    else rest

-- `rtems_ping_send` of a ping that is there, behind the request.
unfoldable pub rtems_ping_send : Request → (sec usec tps : ℕ) → List Reply → Code × Option ℕ
unfolding wait
rtems_ping_send q sec usec tps rs = wait q (deadline q.send_time sec usec tps) q.send_time rs

-- The loop of `rtems_ping`: `k` pings more, from the number `i` on. `send i` is `none` for an error of
-- the `i`-th `rtems_ping_send`, or its trip time. The errors, and the sum of the trip times.
unfoldable pub ping_loop : (ℕ → Option ℕ) → (k i : ℕ) → ℕ × ℕ
ping_loop send zero i = (0, 0)
ping_loop send (suc k) i =
    let (errs, atrip) = ping_loop send k (i + 1) in
    elim (send i) [ none ↦ (errs + 1, atrip) | some trip ↦ (errs, (trip + atrip) % 2 ^ 64) ]

-- `rtems_ping` for a number of retries that is not negative: `valid` is whether the address is one,
-- `opens` whether `rtems_ping_open` gives a ping.
unfoldable pub rtems_ping : (valid opens : Bool) → (ℕ → Option ℕ) → (nretries : ℕ) → ℤ
unfolding ping_loop
rtems_ping valid opens send nretries =
    let (errs, atrip) = ping_loop send (nretries + 1) 0 in
    let mean = atrip / (nretries + 1) in
    if not valid
    then neg (nretries + 2)
    else if not opens
    then neg (nretries + 2)
    else if errs == 0
    then pos (if ltb 0x7fffffff mean then 0x7fffffff else mean)
    else neg errs
