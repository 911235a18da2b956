-- ===== src/Net/Sockbuf.antt =====
-- miscUtils/sockstats.c: what `getsbstats` counts of a socket's buffer and `prsbstats` prints of it. Of the
-- two ways to add up the references to clusters, the whole numbers of NO_FLOATS.
pub mod Tally
use rtems_ssrl_apps.Prelude.{
  ℕ, ◌+◌, ◌-◌, ◌*◌, ◌%◌, ◌^◌, Bool, ◌&&◌, List, [], ◌∷◌, ◌==◌, ltb, leb, if◌then◌else◌,
}
use rtems_ssrl_apps.MemUtils.{u32}

-- An mbuf: its flag M_EXT, and the address of its data.
pub record Mbuf : Type 0 where
  pub ext : Bool
  pub data_at : ℕ

-- `mbutl`, `mbstat.m_clusters` and `MCLBYTES`, and `mclrefcnt` of the cluster that holds an address.
pub record Pool : Type 0 where
  pub mbutl : ℕ
  pub clusters : ℕ
  pub mclbytes : ℕ
  pub refcnt : ℕ → ℕ

-- The fields of a socket buffer that are copied.
pub record Limits : Type 0 where
  pub sb_cc : ℕ
  pub sb_hiwat : ℕ
  pub sb_mbcnt : ℕ
  pub sb_mbmax : ℕ
  pub sb_lowat : ℕ
  pub sb_flags : ℕ
  pub sb_timeo : ℕ

-- A socket buffer, with its records as the chains of mbufs that they are.
pub record Sockbuf : Type 0 where
  pub limits : Limits
  pub records : List (List Mbuf)

-- The counters of `getsbstats`.
pub record Counts : Type 0 where
  pub nmbufs : ℕ
  pub nmbcl1s : ℕ
  pub nmbclms : ℕ
  pub cl_refs : ℕ

pub record Sbstats : Type 0 where
  pub limits : Limits
  pub counts : Counts

unfoldable pub holdsclust : Pool → Mbuf → Bool
holdsclust p mb =
    let e = u32 (p.mbutl + p.mclbytes * u32 (p.clusters + 2 ^ 32 - 1)) in
    mb.ext && (leb p.mbutl mb.data_at && ltb mb.data_at e)

-- An mbuf.
unfoldable pub count_mbuf : Pool → Mbuf → Counts → Counts
count_mbuf p mb c =
    let i = p.refcnt mb.data_at in
    let d = record c { nmbufs = u32 (c.nmbufs + 1) } in
    if holdsclust p mb
    then (if i == 1
        then record d { nmbcl1s = u32 (d.nmbcl1s + 1) }
        else record d { nmbclms = u32 (d.nmbclms + 1); cl_refs = u32 (d.cl_refs + i) })
    else d

-- The loops over the mbufs of a record, and over the records.
unfoldable pub count_record : Pool → List Mbuf → Counts → Counts
count_record p [] c = c
count_record p (mb ∷ ms) c = count_record p ms (count_mbuf p mb c)

unfoldable pub count_records : Pool → List (List Mbuf) → Counts → Counts
unfolding count_record
count_records p [] c = c
count_records p (r ∷ rs) c = count_records p rs (count_record p r c)

abbrev pub no_counts : Counts
no_counts = record { nmbufs = 0; nmbcl1s = 0; nmbclms = 0; cl_refs = 0 }

unfoldable pub getsbstats : Pool → Sockbuf → Sbstats
unfolding count_records
getsbstats p sob = record { limits = sob.limits; counts = count_records p sob.records no_counts }

-- The values that `prsbstats` prints, in their order.
unfoldable pub prsbstats : Sbstats → (level : ℕ) → List ℕ
prsbstats sb level =
    let c = sb.counts in
    let l = sb.limits in
    c.nmbufs
    ∷ l.sb_mbcnt
    ∷ u32 (c.nmbcl1s + c.nmbclms)
    ∷ c.nmbcl1s
    ∷ c.nmbclms
    ∷ u32 (c.cl_refs + 2 ^ 32 - c.nmbclms)
    ∷ (if ltb 1 level
        then l.sb_cc ∷ l.sb_hiwat ∷ l.sb_mbmax ∷ l.sb_lowat ∷ l.sb_flags ∷ l.sb_timeo ∷ []
        else [])
