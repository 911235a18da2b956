-- ===== src/Net/Ping/Replies.antt =====
-- The wait of `rtems_ping_send` of miscUtils/icmpping.c for the answer.
use rtems_ssrl_apps.Prelude.{
  ℕ, ◌+◌, ◌*◌, ◌/◌, ◌^◌, ◌≤◌, ◌<◌, ◌≡◌, refl, true, none, List, [], ◌∷◌, arith, leb, Bool-cases,
  inl, inr, false, ◌↔◌,
}
use rtems_ssrl_apps.Net.Ping.{success, timed_out, Reply, Request, is_answer, wait, rtems_ping_send}

-- A packet is an echo reply with the identifier, the number and the sender of the request.
abbrev pub Answers : Request → Reply → Type 0
Answers q r = (r.is_echoreply ≡ true) × (r.id ≡ q.id) × (r.seq ≡ q.seq) × (r.from ≡ q.dest)

-- The first packet of the list that answers the request carries its data, and all packets up to it are
-- awaited before the deadline, with the timeout of the socket set.
pub data Answered (q : Request) (timeout : ℕ) : ℕ → List Reply → Type 0 where
  here :
      {t : ℕ} {r : Reply} {rs : List Reply}
      → t < timeout
      → r.set ≡ true
      → Answers q r
      → r.same_data ≡ true
      → Answered q timeout t (r ∷ rs)
  later :
      {t : ℕ} {r : Reply} {rs : List Reply}
      → t < timeout
      → r.set ≡ true
      → ¬ Answers q r
      → Answered q timeout r.now rs
      → Answered q timeout t (r ∷ rs)

answer_iff : (q : Request) (r : Reply) → (is_answer q r ≡ true) ↔ Answers q r
answer_iff q r =
    ((λ e. (ground arith, ground arith, ground arith, ground arith)), λ a. ground arith)

not_answer : (q : Request) (r : Reply) → ¬ Answers q r → is_answer q r ≡ false
not_answer q r h = elim (Bool-cases (is_answer q r)) [
  | inl a ↦ absurd (h ((answer_iff q r).0 a))
  | inr a ↦ a
]

wait-succeeds :
    (q : Request) (timeout t : ℕ) (rs : List Reply)
    → (wait q timeout t rs).0 ≡ success
    → Answered q timeout t rs
unfolding wait
wait-succeeds q timeout t [] e = absurd (ground arith)
wait-succeeds q timeout t (r ∷ rs) e = elim (Bool-cases (leb timeout t)) [
  | inl b ↦ absurd (ground arith)
  | inr b ↦ elim (Bool-cases (is_answer q r)) [
    | inl a ↦ here (ground arith) (ground arith) ((answer_iff q r).0 a) (ground arith)
    | inr a ↦
        later (ground arith) (ground arith) (λ x. let y = (answer_iff q r).1 x in ground arith)
          (wait-succeeds q timeout r.now rs (ground arith))
  ]
]

Answered-wait :
    (q : Request) (timeout t : ℕ) (rs : List Reply)
    → Answered q timeout t rs
    → (wait q timeout t rs).0 ≡ success
unfolding wait
Answered-wait q timeout t _ (here {r} l s a d) = let y = (answer_iff q r).1 a in ground arith
Answered-wait q timeout t _ (later {r} {rs} l s n h) =
    let y = not_answer q r n in let z = Answered-wait q timeout r.now rs h in ground arith

-- A wait succeeds exactly if the first packet that is an echo reply with the identifier, the number and the
-- sender of the request carries the data sent, and all packets up to it are awaited before the deadline,
-- with the timeout of the socket set.
pub wait-Answered :
    (q : Request) (timeout t : ℕ) (rs : List Reply)
    → ((wait q timeout t rs).0 ≡ success) ↔ Answered q timeout t rs
wait-Answered q timeout t rs = (wait-succeeds q timeout t rs, Answered-wait q timeout t rs)

-- If the deadline wraps around at 32 bits, the ping times out at once, whatever answers come.
pub rtems_ping_send_wraps :
    (q : Request) (sec usec tps : ℕ) (rs : List Reply)
    → q.send_time < 2 ^ 32
    → sec * tps + usec * tps / 1000000 < 2 ^ 31
    → 2 ^ 32 ≤ q.send_time + sec * tps + usec * tps / 1000000
    → rtems_ping_send q sec usec tps rs ≡ (timed_out, none)
unfolding rtems_ping_send wait
rtems_ping_send_wraps q sec usec tps [] l s w = refl
rtems_ping_send_wraps q sec usec tps (r ∷ rs) l s w = ground arith
