-- ===== src/Net/Traceroute/Results.antt =====
-- What `do_traceroute` and `traceroute` return and free.
use rtems_ssrl_apps.Prelude.{
  ℕ, zero, suc, ◌+◌, ◌≤◌, ◌<◌, ◌≡◌, refl, Bool, true, false, Option, none, some, List, [], ◌∷◌, ap,
  ◌∙◌, arith, length, if◌then◌else◌,
}
use rtems_ssrl_apps.Prelude.Int.{ℤ, pos, is_neg}
use rtems_ssrl_apps.Net.Traceroute.{
  Attempt, send_failed, waited, attempt, try_hop, Trace, trace, Setup, tr_open, to_hops,
  do_traceroute, traceroute_result_free, traceroute, conclude, conclude_all, Outcome, ended, Hop,
  lost, arrived, after_hop, with_ttl, icmp_echoreply, Packet, receive, Last,
}

conclude_closes :
    (s : Setup) (t : Trace) → (conclude (tr_open s) t).closes ≡ (if is_neg s.fd then 0 else 1)
unfolding conclude tr_open
conclude_closes s t = ground arith

conclude_leaks :
    (b : Bool) (n : ℕ) (t : Trace)
    → let o = conclude (b, n) t in
      o.allocated
      ≡ o.freed
        + traceroute_result_free o.result
        + (if b then (if o.ok then 0 else length t.nodes) else 0)
unfolding conclude traceroute_result_free
conclude_leaks b n t = ground arith

conclude_ok :
    (n : ℕ) (t : Trace)
    → 0 < t.left
    → ((conclude (true, n) t).ok ≡ true) × ((conclude (true, n) t).result ≡ some t)
unfolding conclude
conclude_ok n t l = ground arith

conclude_all-some :
    (b : Bool) (n : ℕ) (x : Option Trace) {o : Outcome}
    → conclude_all (b, n) x ≡ some o
    → (t : Trace) × (o ≡ conclude (b, n) t)
conclude_all-some false n x e = (ended 0 0, ground arith)
conclude_all-some true n none e = ground arith
conclude_all-some true n (some t) e = (t, ground arith)

module _ (dest ident : ℕ) (world : ℕ → Attempt) where
  -- Whatever fails, if it returns, a socket that was opened is closed once, and one that was not is not
  -- closed.
  pub do_traceroute-closes :
      (s : Setup) (max_hops : ℤ) {o : Outcome}
      → do_traceroute dest ident world s max_hops ≡ some o
      → o.closes ≡ (if is_neg s.fd then 0 else 1)
  unfolding do_traceroute
  do_traceroute-closes s max_hops e =
      let x = trace dest ident world (to_hops max_hops) 0 1 in
      let (t, q) = conclude_all-some (tr_open s).0 (tr_open s).1 x e in rw q (conclude_closes s t)

  -- If it returns, `traceroute` frees all that it allocates if the trace succeeds, and leaks each node if it
  -- does not.
  pub traceroute-leaks :
      (s : Setup) {o : Outcome}
      → do_traceroute dest ident world s (pos 128) ≡ some o
      → (t : Trace) × (freed : ℕ) × (traceroute dest ident world s ≡ some (o.allocated, freed))
        × (o.allocated
            ≡ freed + (if (tr_open s).0 then (if o.ok then 0 else length t.nodes) else 0))
  unfolding traceroute do_traceroute
  traceroute-leaks s {o} e =
      let x = trace dest ident world 128 0 1 in
      let (t, q) = conclude_all-some (tr_open s).0 (tr_open s).1 x e in
      (
        t,
        o.freed + traceroute_result_free o.result,
        rw (e, traceroute) refl,
        rw q (conclude_leaks (tr_open s).0 (tr_open s).1 t),
      )

  unsent_hop :
      ((n : ℕ) → world n ≡ send_failed) → (r n : ℕ) → try_hop dest ident world r n ≡ lost (n + r)
  unfolding try_hop attempt
  unsent_hop u zero n = ap lost (omega arith)
  unsent_hop u (suc r) n = rw (u n, try_hop) (unsent_hop u r (suc n) ∙ ap lost (omega arith))

  foreign_hop :
      (p : Packet) (ps : List Packet) (l : Last)
      → world 0 ≡ waited (p ∷ ps) l
      → 28 ≤ p.size
      → p.icmp_type ≡ icmp_echoreply
      → p.icmp_code ≡ 0
      → p.from ≡ dest
      → try_hop dest ident world 10 0 ≡ arrived dest 1
  unfolding try_hop attempt receive
  foreign_hop p ps l w z y c f = rw (w, try_hop) (ground arith)

  trace_hop :
      (h : ℕ) {hop : Hop}
      → try_hop dest ident world 10 0 ≡ hop
      → trace dest ident world (suc h) 0 1
        ≡ with_ttl 1 (after_hop h hop (λ m. trace dest ident world h m 2))
  unfolding trace
  trace_hop h e = ap (λ x. with_ttl 1 (after_hop h x (λ m. trace dest ident world h m 2))) e

  -- If no frame can be sent, a trace of one hop or more succeeds, with no node.
  pub do_traceroute_unsent :
      (s : Setup) (h : ℕ)
      → tr_open s ≡ (true, 0)
      → ((n : ℕ) → world n ≡ send_failed)
      → let o = do_traceroute dest ident world s (pos (suc h)) in
        (t : Trace) × (r : Outcome) × (o ≡ some r)
        × (r.ok ≡ true)
        × (r.result ≡ some t)
        × (t.nodes ≡ [])
        × (t.turns ≡ 10)
  unfolding do_traceroute
  do_traceroute_unsent s h o u =
      let t : Trace = record { left = suc h; nodes = []; hops = 0; turns = 10; ttls = 1 ∷ [] } in
      let e = trace_hop h (unsent_hop u 10 0) in
      let (a, b) = conclude_ok 0 t (omega arith) in
      (t, conclude (true, 0) t, rw (o, e) refl, a, b, refl, refl)

  -- An echo reply from the destination to another program ends the trace in success at the first hop.
  pub do_traceroute_foreign :
      (s : Setup) (h : ℕ) (p : Packet) (ps : List Packet) (l : Last)
      → tr_open s ≡ (true, 0)
      → world 0 ≡ waited (p ∷ ps) l
      → 28 ≤ p.size
      → p.icmp_type ≡ icmp_echoreply
      → p.icmp_code ≡ 0
      → p.from ≡ dest
      → let o = do_traceroute dest ident world s (pos (suc h)) in
        (t : Trace) × (r : Outcome) × (o ≡ some r)
        × (r.ok ≡ true)
        × (r.result ≡ some t)
        × (t.nodes ≡ dest ∷ [])
  unfolding do_traceroute attempt receive
  do_traceroute_foreign s h p ps l o w z y c f =
      let t : Trace = record {
        left = suc h;
        nodes = dest ∷ [];
        hops = 1;
        turns = 1;
        ttls = 1 ∷ [];
      } in
      let e = trace_hop h (foreign_hop p ps l w z y c f) in
      let (a, b) = conclude_ok 0 t (omega arith) in
      (t, conclude (true, 0) t, rw (o, e) refl, a, b, refl)
