-- ===== src/Altivec/VecAlloc/Layout.antt =====
-- Where a block of `vec_malloc` lies within the memory that `malloc` gave, and that it can be freed.
use rtems_ssrl_apps.Prelude.{ℕ, ◌+◌, ◌%◌, ◌^◌, ◌≤◌, ◌<◌, ◌≡◌, ◌≢◌, [], ◌∷◌, arith}
use rtems_ssrl_apps.Altivec.VecAlloc.{
  u32, Memory, malloc, free, back, align_up, vec_malloc, vec_free,
}

-- The block that `malloc` returns for `n` bytes: it is not NULL, is aligned to words and lies in the
-- address space.
pub record IsBlock (pu n : ℕ) : Type 0 where
  pub ne_null : pu ≢ 0
  pub word : pu % 4 ≡ 0
  pub fits : pu + n < 2 ^ 32

-- A block of `s` bytes at `p`, with its back pointer, within the `n` bytes at `pu`.
pub record IsInside (p s pu n : ℕ) (m : Memory) : Type 0 where
  pub aligned : p % 16 ≡ 0
  pub word_inside : pu + 4 ≤ p
  pub data_inside : p + s ≤ pu + n
  pub back_pointer : m.pointer (back p) ≡ pu

pub align_up_bounds :
    (pu : ℕ)
    → pu % 4 ≡ 0
    → pu + 16 < 2 ^ 32
    → (align_up pu % 16 ≡ 0) × (pu + 4 ≤ align_up pu) × (align_up pu ≤ pu + 16)
align_up_bounds pu w f = omega arith

-- For a size that does not overflow, and a block that `malloc` grants, the memory returned is aligned
-- to 16 bytes, lies with its back pointer within the block, and leads `vec_free` back to the block.
pub vec_malloc-IsInside :
    (alloc : ℕ → ℕ) (s : ℕ) (m : Memory)
    → 0 < s
    → s + 16 < 2 ^ 32
    → IsBlock (alloc (s + 16)) (s + 16)
    → let r = vec_malloc alloc s m in
      IsInside r.pointer s (alloc (s + 16)) (s + 16) r.memory
      × (r.calls ≡ malloc (s + 16) ∷ [])
      × (vec_free r.pointer r.memory ≡ free (alloc (s + 16)) ∷ [])
unfolding vec_malloc vec_free
vec_malloc-IsInside alloc s m pos small b =
    let e : u32 (s + 16) ≡ s + 16 = omega arith in
    rw e (ground (arith, align_up_bounds (alloc (s + 16)) b.word))
