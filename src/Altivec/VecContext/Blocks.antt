-- ===== src/Altivec/VecContext/Blocks.antt =====
-- The list of blocks in use, of the extension of altivec/vec_context.c.
use rtems_ssrl_apps.Prelude.{
  ℕ, ◌+◌, ◌≡◌, ◌≤◌, ◌%◌, ◌^◌, List, [], ◌∷◌, true, false, ◌==◌, arith, Bool-cases, inl, inr, refl,
}
use rtems_ssrl_apps.Altivec.VecContext.{remove, context_block_size, line_up}
use rtems_ssrl_apps.Altivec.VecContext.Tasks.{mem, pairwise, all_apart, apart}

pub mem-remove : (p q : ℕ) (qs : List ℕ) → mem p (remove q qs) ≡ true → mem p qs ≡ true
unfolding remove
mem-remove p q [] m = m
mem-remove p q (x ∷ xs) m = elim (Bool-cases (x == q)) [
  | inl e ↦ ground arith
  | inr e ↦ elim (Bool-cases (x == p)) [
    | inl f ↦ ground arith
    | inr f ↦
        let r : mem p (remove q xs) ≡ true = ground arith in ground (arith, mem-remove p q xs r)
  ]
]

pub remove_keeps :
    (p q : ℕ) (qs : List ℕ) → (p == q) ≡ false → mem p qs ≡ true → mem p (remove q qs) ≡ true
unfolding remove
remove_keeps p q [] d m = m
remove_keeps p q (x ∷ xs) d m = elim (Bool-cases (x == p)) [
  | inl e ↦ let f : (x == q) ≡ false = ground arith in ground arith
  | inr e ↦ let r : mem p xs ≡ true = ground arith in ground (arith, remove_keeps p q xs d r)
]

pub apart-mem : (p q : ℕ) (qs : List ℕ) → all_apart p qs ≡ true → mem q qs ≡ true → apart p q ≡ true
apart-mem p q [] a m = ground arith
apart-mem p q (x ∷ xs) a m = elim (Bool-cases (x == q)) [
  | inl e ↦ ground arith
  | inr e ↦
      let r : mem q xs ≡ true = ground arith in
      let b : all_apart p xs ≡ true = ground arith in apart-mem p q xs b r
]

all_apart-remove :
    (p q : ℕ) (qs : List ℕ) → all_apart p qs ≡ true → all_apart p (remove q qs) ≡ true
unfolding remove
all_apart-remove p q [] a = a
all_apart-remove p q (x ∷ xs) a =
    let b : all_apart p xs ≡ true = ground arith in ground (arith, all_apart-remove p q xs b)

pub pairwise-remove : (q : ℕ) (qs : List ℕ) → pairwise qs ≡ true → pairwise (remove q qs) ≡ true
unfolding remove
pairwise-remove q [] a = a
pairwise-remove q (x ∷ xs) a =
    let b : pairwise xs ≡ true = ground arith in
    let c : all_apart x xs ≡ true = ground arith in
    ground (arith, pairwise-remove q xs b, all_apart-remove x q xs c)

-- A block that is freed is not in use twice.
pub remove_gone : (q : ℕ) (qs : List ℕ) → pairwise qs ≡ true → mem q (remove q qs) ≡ false
unfolding remove
remove_gone q [] a = refl
remove_gone q (x ∷ xs) a =
    let b : pairwise xs ≡ true = ground arith in
    let c : all_apart x xs ≡ true = ground arith in
    elim (Bool-cases (x == q)) [
      | inl e ↦ elim (Bool-cases (mem q xs)) [
        | inl m ↦ let t = apart-mem x q xs c m in ground arith
        | inr m ↦ ground arith
      ]
      | inr e ↦ ground (arith, remove_gone q xs b)
    ]

-- Blocks that are apart have contexts at different lines.
pub line_up-apart :
    (p q : ℕ)
    → p % 4 ≡ 0
    → q % 4 ≡ 0
    → p + context_block_size ≤ 2 ^ 32
    → q + context_block_size ≤ 2 ^ 32
    → apart p q ≡ true
    → (line_up p == line_up q) ≡ false
line_up-apart p q w v f g a = ground arith
