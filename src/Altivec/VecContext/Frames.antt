-- ===== src/Altivec/VecContext/Frames.antt =====
-- What `vec_task_enable` and `extalloc` of altivec/vec_context.c decide.
use rtems_ssrl_apps.Prelude.{
  ℕ, zero, suc, ◌+◌, ◌*◌, ◌%◌, ◌^◌, ◌≤◌, ◌≡◌, ◌⊎◌, ◌||◌, ◌&&◌, ◌==◌, ◌∙◌, leb, ltb, Bool, true,
  false, not, none, some, List, [], ◌∷◌, if◌then◌else◌, refl, arith, Bool-cases, inl, inr, length,
}
use rtems_ssrl_apps.Altivec.VecContext.{
  Machine, line_up, context_block_size, remove, workspace_allocate, set_bptr, extalloc, extfree,
  attach_context, walk, allocate_context, vec_task_enable, refused, no_memory, enabled, returns,
  continues,
}
use rtems_ssrl_apps.Altivec.VecContext.Tasks.{IsBlock}
use rtems_ssrl_apps.Altivec.VecContext.Enabling.{allocated}

-- The frames above `r1`: each word of a frame points to the next, and the last one's is 0.
abbrev pub chained : (ℕ → ℕ) → ℕ → List ℕ → Bool
chained words r1 [] = words r1 == 0
chained words r1 (f ∷ fs) = not (words r1 == 0) && (words r1 == f) && chained words f fs

abbrev pub all_aligned : ℕ → List ℕ → Bool
all_aligned r1 [] = r1 % 16 == 0
all_aligned r1 (f ∷ fs) = (r1 % 16 == 0) && all_aligned f fs

-- What the walk finds: whether it ends at the top, and whether a frame is misaligned.
record IsWalk (words : ℕ → ℕ) (misa : ℕ) (r1 : ℕ) (fs : List ℕ) (r : ℕ × ℕ) : Type 0 where
  ends : (words r.0 == 0) ≡ true
  finds : (not (r.0 % 16 == 0) || not (r.1 == 0)) ≡ (not (misa == 0) || not (all_aligned r1 fs))

walk-IsWalk :
    (n : ℕ) (words : ℕ → ℕ) (r1 misa : ℕ) (fs : List ℕ)
    → length fs ≤ n
    → chained words r1 fs ≡ true
    → IsWalk words misa r1 fs (walk n words r1 misa)
unfolding walk
walk-IsWalk zero words r1 misa [] l c = record { ends = c; finds = ground arith }
walk-IsWalk (suc n) words r1 misa [] l c = rw c (record { ends = c; finds = ground arith })
walk-IsWalk zero words r1 misa (f ∷ fs) l c = ground arith
walk-IsWalk (suc n) words r1 misa (f ∷ fs) l c =
    let e : (words r1 == 0) ≡ false = ground arith in
    let d : words r1 ≡ f = ground arith in
    let k : chained words f fs ≡ true = ground arith in
    elim (Bool-cases (r1 % 16 == 0)) [
      | inl z ↦
          let h = walk-IsWalk n words f misa fs (omega arith) k in
          rw (e, d, z) (record { ends = h.ends; finds = rw z h.finds })
      | inr z ↦
          let h = walk-IsWalk n words f r1 fs (omega arith) k in
          let g : (r1 == 0) ≡ false = ground arith in
          let m : (not (misa == 0) || true) ≡ true = ground arith in
          rw (e, d, z) (record { ends = h.ends; finds = rw (z, m) (h.finds ∙ rw g refl) })
    ]

-- Too many frames: the walk stops below the top.
walk_deep :
    (n : ℕ) (words : ℕ → ℕ) (r1 misa : ℕ) (fs : List ℕ)
    → suc n ≤ length fs
    → chained words r1 fs ≡ true
    → (words (walk n words r1 misa).0 == 0) ≡ false
unfolding walk
walk_deep n words r1 misa [] l c = ground arith
walk_deep zero words r1 misa (f ∷ fs) l c = ground arith
walk_deep (suc n) words r1 misa (f ∷ fs) l c =
    let e : (words r1 == 0) ≡ false = ground arith in
    let d : words r1 ≡ f = ground arith in
    let k : chained words f fs ≡ true = ground arith in
    rw (e, d) (walk_deep n words f (if r1 % 16 == 0 then misa else r1) fs (omega arith) k)

-- The assertion of `extalloc` holds, and the context lies in the block.
pub line_bounds :
    (p : ℕ)
    → p % 4 ≡ 0
    → p + context_block_size ≤ 2 ^ 32
    → (p ≤ line_up p) × (line_up p % 32 ≡ 0) × (line_up p + 34 * 16 ≤ p + context_block_size)
line_bounds p w f = omega arith

extalloc_lem :
    (p : ℕ) (s : Machine)
    → (p ≡ 0) ⊎ IsBlock p s.blocks
    → extalloc p s ≡ some (line_up p, allocated p s)
unfolding extalloc
extalloc_lem p s (inl z) = rw z refl
extalloc_lem p s (inr b) =
    let (l, a, _) = line_bounds p b.word b.fits in
    let e : leb p (line_up p) ≡ true = ground arith in
    let d : (line_up p % 32 == 0) ≡ true = ground arith in rw (e, d) refl

pub allocate_context-Decides :
    (id r1 p : ℕ) (s : Machine) (fs : List ℕ)
    → chained s.words r1 fs ≡ true
    → (p ≡ 0) ⊎ IsBlock p s.blocks
    → allocate_context id r1 p s ≡ (
        if id == 0
        then some (returns refused s)
        else if ltb 100 (length fs)
        then none
        else if not (all_aligned r1 fs) || s.msr_ve
        then some (returns refused s)
        else if line_up p == 0
        then some (returns no_memory (allocated p s))
        else some (continues (line_up p) (allocated p s)))
unfolding allocate_context
allocate_context-Decides id r1 p s fs c b = elim (Bool-cases (ltb 100 (length fs))) [
  | inl d ↦ let e = walk_deep 100 s.words r1 0 fs (ground arith) c in rw (e, d) refl
  | inr d ↦
      let h = walk-IsWalk 100 s.words r1 0 fs (ground arith) c in
      elim (Bool-cases (all_aligned r1 fs)) [
        | inl a ↦ elim (Bool-cases s.msr_ve) [
          | inl m ↦ rw (d, h.ends, h.finds, a, m) refl
          | inr m ↦ rw (d, h.ends, h.finds, extalloc_lem p s b, a, m) refl
        ]
        | inr a ↦ rw (d, h.ends, h.finds, a) refl
      ]
]

-- On a stack whose frames lead up from the stack pointer to one whose back pointer is 0, and with no other
-- task in between, `vec_task_enable` refuses, and changes nothing, if the extension is not installed, a
-- frame is not aligned to 16 bytes or MSR_VE is set; it reports that there is no memory if the workspace
-- gives none; else it attaches a context. With more than 100 frames above, the assertion fails if the
-- extension is installed.
pub vec_task_enable-Decides :
    (id r1 p : ℕ) (s : Machine) (fs : List ℕ)
    → chained s.words r1 fs ≡ true
    → (p ≡ 0) ⊎ IsBlock p s.blocks
    → vec_task_enable id r1 p s ≡ (
        if id == 0
        then some (refused, s)
        else if ltb 100 (length fs)
        then none
        else if not (all_aligned r1 fs) || s.msr_ve
        then some (refused, s)
        else if line_up p == 0
        then some (no_memory, allocated p s)
        else some (enabled, attach_context (line_up p) (allocated p s)))
unfolding vec_task_enable
vec_task_enable-Decides id r1 p s fs c b =
    rw (allocate_context-Decides id r1 p s fs c b) (elim (Bool-cases (id == 0)) [
      | inl d ↦ rw d refl
      | inr d ↦ elim (Bool-cases (ltb 100 (length fs))) [
        | inl e ↦ rw (d, e) refl
        | inr e ↦ elim (Bool-cases (not (all_aligned r1 fs) || s.msr_ve)) [
          | inl f ↦ rw (d, e, f) refl
          | inr f ↦ elim (Bool-cases (line_up p == 0)) [
            | inl g ↦ rw (d, e, f, g) refl
            | inr g ↦ rw (d, e, f, g) refl
          ]
        ]
      ]
    ])

-- A context that `extalloc` takes out of a block of the workspace starts on a cache line and lies within
-- the block, and `extfree` gives just that block back; dispatching is disabled as deep as before.
pub extfree-extalloc :
    (p : ℕ) (s : Machine)
    → (p == 0) ≡ false
    → IsBlock p s.blocks
    → let vc = line_up p in
      let t = allocated p s in
      (extalloc p s ≡ some (vc, t))
      × (vc % 32 ≡ 0)
      × (p ≤ vc)
      × (vc + 34 * 16 ≤ p + context_block_size)
      × (t.blocks ≡ p ∷ s.blocks)
      × ((extfree vc t).blocks ≡ s.blocks)
      × ((extfree vc t).level ≡ s.level)
unfolding workspace_allocate set_bptr extfree remove
extfree-extalloc p s d b =
    let (l, a, i) = line_bounds p b.word b.fits in
    let e : (line_up p == line_up p) ≡ true = ground arith in
    let f : (p == p) ≡ true = ground arith in
    (extalloc_lem p s (inr b), a, l, i, rw d refl, rw (d, e, f) refl, rw d (omega arith))
