-- ===== src/Tests/VecAlloc.antt =====
-- Runs of the aligned allocator.
use rtems_ssrl_apps.Prelude.{ℕ, ◌+◌, ◌<◌, ◌≡◌, refl, ◌≢◌, false, some, [], ◌∷◌, arith}
use rtems_ssrl_apps.Altivec.VecAlloc.{
  Memory, malloc, free, vec_malloc, vec_free, Region, unsatisfied, vec_realloc,
}
use rtems_ssrl_apps.Altivec.VecAlloc.Layout.{IsInside, vec_malloc-IsInside}
use rtems_ssrl_apps.Altivec.VecAlloc.Realloc.{vec_realloc_overruns}

-- Memory of ones, and a `malloc` whose blocks lie at 0x1008.
abbrev ones : Memory
ones = record { pointer = λ _. 0; byte = λ _. 1 }

abbrev at_1008 : ℕ → ℕ
at_1008 _ = 0x1008

vec_malloc-IsInside_example :
    let r = vec_malloc at_1008 100 ones in
    IsInside r.pointer 100 0x1008 116 r.memory
    × (r.calls ≡ malloc 116 ∷ [])
    × (vec_free r.pointer r.memory ≡ free 0x1008 ∷ [])
vec_malloc-IsInside_example =
    vec_malloc-IsInside at_1008 100 ones (omega arith) (omega arith) (omega arith)

abbrev full : Region
full = record {
  alloc = λ _. 0;
  blocked = false;
  resize = λ _ _. unsatisfied;
  segment_size = λ _. some 64;
}

abbrev roomy : Region
roomy = record full { alloc = at_1008 }

vec_realloc_overruns_example :
    let r = vec_realloc roomy 0x2000 40 ones in
    (0x1008 + 56 < r.pointer + 40)
    × (vec_free r.pointer r.memory ≡ free 0x1010 ∷ [])
    × (◌≢◌ {A = ℕ} 0x1010 0x1008)
vec_realloc_overruns_example =
    vec_realloc_overruns roomy 0x2000 40 64 ones (ground arith) (omega arith) refl
