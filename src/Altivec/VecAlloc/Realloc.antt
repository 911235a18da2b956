-- ===== src/Altivec/VecAlloc/Realloc.antt =====
-- `vec_realloc` on each of its branches, and what is wrong with the block that it moves.
use rtems_ssrl_apps.Prelude.{ℕ, ◌+◌, ◌^◌, ◌<◌, ◌≡◌, ◌≢◌, false, some, [], ◌∷◌, arith}
use rtems_ssrl_apps.Altivec.VecAlloc.{
  u32, Memory, malloc, free, back, align_up, vec_free, unsatisfied, Region, vec_realloc,
}
use rtems_ssrl_apps.Altivec.VecAlloc.Layout.{IsBlock, align_up_bounds}

-- The block has to be moved: nothing is in the way, and the segment cannot grow in place.
pub record MustMove (g : Region) (p s : ℕ) (m : Memory) : Type 0 where
  pub free_to_run : g.blocked ≡ false
  pub size_pos : 0 < s
  pub size_fits : s + 16 < 2 ^ 32
  pub given : p ≢ 0
  pub no_room : g.resize (m.pointer (back p)) (s + 16) ≡ unsatisfied

-- If the new block cannot be had, a block that must move stays allocated, and NULL is returned.
pub vec_realloc_no_memory :
    (g : Region) (p s : ℕ) (m : Memory)
    → MustMove g p s m
    → g.alloc (s + 16) ≡ 0
    → let r = vec_realloc g p s m in
      (r.pointer ≡ 0) × (r.memory ≡ m) × (r.calls ≡ malloc (s + 16) ∷ [])
unfolding vec_realloc
vec_realloc_no_memory g p s m h e =
    let w : u32 (s + 16) ≡ s + 16 = omega arith in ground (arith, w, h)

-- A block that is moved is handed out 16 bytes too high: it ends 16 bytes behind a region of the size
-- asked for, beyond the block that `malloc` gave, and its back pointer leads `vec_free` to an address
-- that `malloc` never returned.
pub vec_realloc_overruns :
    (g : Region) (p s old_size : ℕ) (m : Memory)
    → MustMove g p s m
    → IsBlock (g.alloc (s + 16)) (s + 32)
    → g.segment_size (align_up (g.alloc (s + 16))) ≡ some old_size
    → let r = vec_realloc g p s m in
      (g.alloc (s + 16) + (s + 16) < r.pointer + s)
      × (vec_free r.pointer r.memory ≡ free (align_up (g.alloc (s + 16))) ∷ [])
      × (align_up (g.alloc (s + 16)) ≢ g.alloc (s + 16))
unfolding vec_realloc
vec_realloc_overruns g p s old_size m h b seg =
    let w : u32 (s + 16) ≡ s + 16 = omega arith in
    ground (arith, w, h, align_up_bounds (g.alloc (s + 16)) b.word)
