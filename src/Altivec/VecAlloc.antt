-- ===== src/Altivec/VecAlloc.antt =====
-- altivec/vec_alloc.c on a 32-bit PowerPC: `vec_malloc`, `vec_free`, `vec_calloc` and `vec_realloc`.
-- `malloc` and the two calls on the RTEMS malloc region are parameters. `x & ~15` is `x / 16 * 16`.
pub mod Layout
pub mod Misuse
pub mod Realloc
use rtems_ssrl_apps.Prelude.{
  ℕ, ◌+◌, ◌-◌, ◌*◌, ◌/◌, ◌%◌, ◌^◌, Bool, true, false, ◌&&◌, ◌||◌, Option, none, some, List, [], ◌∷◌,
  ◌++◌, ◌==◌, ltb, leb, if◌then◌else◌,
}

-- A 32-bit word; `-` on addresses adds the modulus first.
abbrev pub u32 : ℕ → ℕ
u32 n = n % 2 ^ 32

abbrev pub sub32 : ℕ → ℕ → ℕ
sub32 a b = u32 (a + 2 ^ 32 - b)

-- The pointers that lie in memory, and its bytes. A stored pointer is not seen as four bytes.
pub record Memory : Type 0 where
  pub pointer : ℕ → ℕ
  pub byte : ℕ → ℕ

-- The calls of `malloc` and `free` that are made.
pub data Call : Type 0 where
  malloc : ℕ → Call
  free : ℕ → Call

-- The pointer returned (0 is NULL), the memory afterwards and the calls.
pub record Result : Type 0 where
  pub pointer : ℕ
  pub memory : Memory
  pub calls : List Call

abbrev pub result : ℕ → Memory → List Call → Result
result p m cs = record { pointer = p; memory = m; calls = cs }

-- The address of the back pointer of the block at `p`: `((void**)p) - 1`.
abbrev pub back : ℕ → ℕ
back p = sub32 p 4

abbrev pub store_pointer : ℕ → ℕ → Memory → Memory
store_pointer a v m = record m { pointer = λ b. if b == a then v else m.pointer b }

abbrev pub align_up : ℕ → ℕ
align_up p = u32 (p + 16) / 16 * 16

-- `alloc n` is what `malloc(n)` returns.
unfoldable pub vec_malloc : (ℕ → ℕ) → ℕ → Memory → Result
vec_malloc alloc s m =
    let punaligned = alloc (u32 (s + 16)) in
    if s == 0
    then result 0 m []
    else if punaligned == 0
    then result 0 m (malloc (u32 (s + 16)) ∷ [])
    else result (align_up punaligned) (store_pointer (back (align_up punaligned)) punaligned m)
        (malloc (u32 (s + 16)) ∷ [])

unfoldable pub vec_free : ℕ → Memory → List Call
vec_free paligned m = if paligned == 0 then [] else free (m.pointer (back paligned)) ∷ []

-- `memset(a, 0, n)` and `memcpy(dst, src, n)` on the bytes.
abbrev pub clear : ℕ → ℕ → Memory → Memory
clear a n m = record m { byte = λ b. if leb a b && ltb b (a + n) then 0 else m.byte b }

abbrev pub copy : ℕ → ℕ → ℕ → Memory → Memory
copy dst src n m = record m {
  byte = λ b. if leb dst b && ltb b (dst + n) then m.byte (src + (b - dst)) else m.byte b;
}

unfoldable pub vec_calloc : (ℕ → ℕ) → ℕ → ℕ → Memory → Result
unfolding vec_malloc
vec_calloc alloc nmemb s m =
    let size = u32 (s * nmemb) in
    let r = vec_malloc alloc size m in
    if r.pointer == 0 then r else record r { memory = clear r.pointer size r.memory }

-- RTEMS' status codes, as far as `vec_realloc` tells them apart.
pub data Status : Type 0 where
  successful unsatisfied other_status : Status

-- The system that `vec_realloc` asks: `blocked` is dispatching disabled or an interrupt while the
-- system is up, `resize` what `rtems_region_resize_segment` gives, `segment_size` what
-- `rtems_region_get_segment_size` gives for the address it is asked about.
pub record Region : Type 0 where
  pub alloc : ℕ → ℕ
  pub blocked : Bool
  pub resize : ℕ → ℕ → Status
  pub segment_size : ℕ → Option ℕ

abbrev pub min32 : ℕ → ℕ → ℕ
min32 a b = if ltb a b then a else b

-- The new block is there: `pu` is what `vec_malloc` gave, `old_size` what the region says of it.
move_block : ℕ → ℕ → ℕ → ℕ → Result → Result
unfolding vec_free
move_block pold s pu old_size r =
    let p = align_up pu in
    let copied = copy p pold (min32 s (sub32 old_size 16)) r.memory in
    result p (store_pointer (back p) pu copied) (r.calls ++ vec_free pold copied)

grow : Region → ℕ → ℕ → Memory → Result
unfolding vec_malloc move_block
grow g p s m =
    let r = vec_malloc g.alloc s m in
    if r.pointer == 0 then result 0 r.memory r.calls else elim (g.segment_size r.pointer) [
      | none ↦ result 0 r.memory r.calls
      | some old_size ↦ move_block p s r.pointer old_size r
    ]

-- For RTEMS 4.7 and later, where the segment is first tried to be resized in place.
unfoldable pub vec_realloc : Region → ℕ → ℕ → Memory → Result
unfolding vec_malloc vec_free grow
vec_realloc g p s m =
    if g.blocked
    then result 0 m []
    else if s == 0
    then result 0 m (vec_free p m)
    else if p == 0
    then vec_malloc g.alloc s m
    else elim (g.resize (m.pointer (back p)) (u32 (s + 16))) [
      | successful ↦ result p m []
      | unsatisfied ↦ grow g p s m
      | other_status ↦ result 0 m []
    ]
