-- ===== src/Net/Sockbuf/Tally.antt =====
-- What `getsbstats` and `prsbstats` of miscUtils/sockstats.c tell of the mbufs of a buffer.
use rtems_ssrl_apps.Prelude.{
  ℕ, ◌+◌, ◌-◌, ◌<◌, ◌≡◌, refl, ◌∙◌, true, List, [], ◌∷◌, ◌==◌, arith, if◌then◌else◌, Bool-cases,
  inl, inr,
}
use rtems_ssrl_apps.MemUtils.{u32}
use rtems_ssrl_apps.Net.Sockbuf.{
  Mbuf, Pool, Sockbuf, Counts, holdsclust, count_mbuf, count_record, count_records, getsbstats,
  prsbstats,
}

-- The sum of a number of each mbuf, over the mbufs of a record and over the records.
abbrev pub tally : (Mbuf → ℕ) → List Mbuf → ℕ
tally f [] = 0
tally f (mb ∷ ms) = f mb + tally f ms

abbrev pub total : (Mbuf → ℕ) → List (List Mbuf) → ℕ
total f [] = 0
total f (r ∷ rs) = tally f r + total f rs

abbrev pub each : Mbuf → ℕ
each mb = 1

module _ (p : Pool) where
  -- 1 for an mbuf that holds a cluster alone, and for one that shares its cluster.
  abbrev pub single : Mbuf → ℕ
  single mb = if holdsclust p mb then (if p.refcnt mb.data_at == 1 then 1 else 0) else 0

  abbrev pub shared : Mbuf → ℕ
  shared mb = if holdsclust p mb then (if p.refcnt mb.data_at == 1 then 0 else 1) else 0

  abbrev refs : Mbuf → ℕ
  refs mb =
      if holdsclust p mb then (if p.refcnt mb.data_at == 1 then 0 else p.refcnt mb.data_at) else 0

  -- The references that others have to the cluster of an mbuf.
  abbrev pub others : Mbuf → ℕ
  others mb = if holdsclust p mb then p.refcnt mb.data_at - 1 else 0

  -- A cluster that an mbuf holds is referenced.
  abbrev pub IsCounted : Mbuf → Type 0
  IsCounted mb = holdsclust p mb ≡ true → 0 < p.refcnt mb.data_at

  abbrev pub AllCounted : List Mbuf → Type 0
  AllCounted [] = Unit {0}
  AllCounted (mb ∷ ms) = IsCounted mb × AllCounted ms

  abbrev pub RecordsCounted : List (List Mbuf) → Type 0
  RecordsCounted [] = Unit {0}
  RecordsCounted (r ∷ rs) = AllCounted r × RecordsCounted rs

  abbrev at : (n s m r : ℕ) → Counts
  at n s m r = record { nmbufs = u32 n; nmbcl1s = u32 s; nmbclms = u32 m; cl_refs = u32 r }

  Counts_eq :
      {c d : Counts}
      → c.nmbufs ≡ d.nmbufs
      → c.nmbcl1s ≡ d.nmbcl1s
      → c.nmbclms ≡ d.nmbclms
      → c.cl_refs ≡ d.cl_refs
      → c ≡ d
  Counts_eq e f g h = ground arith

  count_mbuf-at :
      (mb : Mbuf) (n s m r : ℕ)
      → count_mbuf p mb (at n s m r) ≡ at (n + 1) (s + single mb) (m + shared mb) (r + refs mb)
  unfolding count_mbuf
  count_mbuf-at mb n s m r = elim (Bool-cases (holdsclust p mb)) [
    | inr e ↦ rw (e, count_mbuf) (Counts_eq (omega arith) (omega arith) (omega arith) (omega arith))
    | inl e ↦ elim (Bool-cases (p.refcnt mb.data_at == 1)) [
      | inl f ↦
          rw (e, f, count_mbuf) (Counts_eq (omega arith) (omega arith) (omega arith) (omega arith))
      | inr f ↦
          rw (e, f, count_mbuf) (Counts_eq (omega arith) (omega arith) (omega arith) (omega arith))
    ]
  ]

  count_record-at :
      (ms : List Mbuf) (n s m r : ℕ)
      → count_record p ms (at n s m r)
        ≡ at (n + tally each ms) (s + tally single ms) (m + tally shared ms) (r + tally refs ms)
  unfolding count_record
  count_record-at [] n s m r = ground arith
  count_record-at (mb ∷ ms) n s m r = rw (count_mbuf-at mb n s m r) (
      count_record-at ms (n + 1) _ _ _
      ∙ Counts_eq (omega arith) (omega arith) (omega arith) (omega arith))

  count_records-at :
      (rs : List (List Mbuf)) (n s m r : ℕ)
      → count_records p rs (at n s m r)
        ≡ at (n + total each rs) (s + total single rs) (m + total shared rs) (r + total refs rs)
  unfolding count_records
  count_records-at [] n s m r = ground arith
  count_records-at (ms ∷ rs) n s m r = rw (count_record-at ms n s m r) (
      count_records-at rs (n + tally each ms) _ _ _
      ∙ Counts_eq (omega arith) (omega arith) (omega arith) (omega arith))

  refs-others : (mb : Mbuf) → IsCounted mb → refs mb ≡ others mb + shared mb
  refs-others mb h = elim (Bool-cases (holdsclust p mb)) [
    | inr e ↦ rw e refl
    | inl e ↦ ground (arith, h e)
  ]

  tally-others :
      (ms : List Mbuf) → AllCounted ms → tally refs ms ≡ tally others ms + tally shared ms
  tally-others [] h = refl
  tally-others (mb ∷ ms) h = omega (arith, refs-others mb h.0, tally-others ms h.1)

  total-others :
      (rs : List (List Mbuf))
      → RecordsCounted rs
      → total refs rs ≡ total others rs + total shared rs
  total-others [] h = refl
  total-others (ms ∷ rs) h = omega (arith, tally-others ms h.0, total-others rs h.1)

  -- Where each cluster that is held is referenced, `prsbstats` prints at level 1, modulo 2 ^ 32, the number
  -- of a buffer's mbufs, behind it the characters of mbufs used, then the numbers of the mbufs which hold a
  -- cluster, alone and with others, and the number of references which others have to these clusters.
  pub prsbstats-total :
      (sob : Sockbuf)
      → RecordsCounted sob.records
      → prsbstats (getsbstats p sob) 1
        ≡ u32 (total each sob.records)
          ∷ sob.limits.sb_mbcnt
          ∷ u32 (total single sob.records + total shared sob.records)
          ∷ u32 (total single sob.records)
          ∷ u32 (total shared sob.records)
          ∷ u32 (total others sob.records)
          ∷ []
  unfolding prsbstats getsbstats
  prsbstats-total sob h =
      rw (count_records-at sob.records 0 0 0 0) (ground (arith, total-others sob.records h))
