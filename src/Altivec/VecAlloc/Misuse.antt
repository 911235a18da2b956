-- ===== src/Altivec/VecAlloc/Misuse.antt =====
-- The sizes of `vec_malloc` and `vec_calloc` at which their 32-bit sums and products wrap.
use rtems_ssrl_apps.Prelude.{
  ℕ, ◌+◌, ◌-◌, ◌*◌, ◌%◌, ◌^◌, ◌≤◌, ◌<◌, ◌≡◌, ◌≢◌, [], ◌∷◌, arith, ltb, leb, if◌then◌else◌,
}
use rtems_ssrl_apps.Altivec.VecAlloc.{u32, Memory, malloc, vec_malloc, vec_calloc}
use rtems_ssrl_apps.Altivec.VecAlloc.Layout.{IsBlock, align_up_bounds}

-- Within 16 bytes of the address space's size, `vec_malloc` asks `malloc` for fewer than 16 bytes and
-- returns a pointer all the same: the memory it promises ends behind the memory it was given.
pub vec_malloc_wraps :
    (alloc : ℕ → ℕ) (s : ℕ) (m : Memory)
    → s < 2 ^ 32
    → 2 ^ 32 ≤ s + 16
    → IsBlock (alloc (s + 16 - 2 ^ 32)) 16
    → let r = vec_malloc alloc s m in
      (r.calls ≡ malloc (s + 16 - 2 ^ 32) ∷ [])
      × (r.pointer ≢ 0)
      × (alloc (s + 16 - 2 ^ 32) + (s + 16 - 2 ^ 32) < r.pointer + s)
unfolding vec_malloc
vec_malloc_wraps alloc s m small big b =
    let e : u32 (s + 16) ≡ s + 16 - 2 ^ 32 = omega arith in
    rw e (ground (arith, align_up_bounds (alloc (s + 16 - 2 ^ 32)) b.word))

-- Where the product does not overflow, every byte of the memory that `vec_calloc` returns is 0 and no
-- byte outside it has changed.
pub vec_calloc-cleared :
    (alloc : ℕ → ℕ) (nmemb s a : ℕ) (m : Memory)
    → 0 < s * nmemb
    → s * nmemb + 16 < 2 ^ 32
    → IsBlock (alloc (s * nmemb + 16)) (s * nmemb + 16)
    → let r = vec_calloc alloc nmemb s m in
      (r.pointer ≢ 0)
      × (r.memory.byte a ≡ (
          if leb r.pointer a
          then (if ltb a (r.pointer + s * nmemb) then 0 else m.byte a)
          else m.byte a))
unfolding vec_calloc
vec_calloc-cleared alloc nmemb s a m pos small b =
    let e : u32 (s * nmemb) ≡ s * nmemb = omega arith in
    let e' : u32 (s * nmemb + 16) ≡ s * nmemb + 16 = omega arith in
    rw (e, e') (ground (arith, align_up_bounds (alloc (s * nmemb + 16)) b.word))

-- Where the product overflows, `vec_calloc` asks for the remainder only, less than the product.
pub vec_calloc_wraps :
    (alloc : ℕ → ℕ) (nmemb s : ℕ) (m : Memory)
    → 2 ^ 32 ≤ s * nmemb
    → 0 < s * nmemb % 2 ^ 32
    → s * nmemb % 2 ^ 32 + 16 < 2 ^ 32
    → (vec_calloc alloc nmemb s m).calls ≡ malloc (s * nmemb % 2 ^ 32 + 16) ∷ []
unfolding vec_calloc
vec_calloc_wraps alloc nmemb s m big pos fits =
    let e : u32 (u32 (s * nmemb) + 16) ≡ s * nmemb % 2 ^ 32 + 16 = omega arith in ground (arith, e)
