-- ===== src/MemUtils/Modify/Stop.antt =====
-- When `mm` of miscUtils/memUtils.c ends.
use rtems_ssrl_apps.Prelude.{
  ℕ, zero, suc, ◌<◌, ◌≡◌, ◌≢◌, refl, Bool, true, false, ◌||◌, Option, none, List, [], ◌∷◌, ◌++◌,
  ◌==◌, length, arith, Bool-cases, Option-cases, inl, inr, is_some,
}
use rtems_ssrl_apps.MemUtils.{word_size}
use rtems_ssrl_apps.MemUtils.Modify.{read_line, fgets, is_last, obey, mm_loop, mm}

-- A line that is typed, without its newline: `fgets` reads it whole.
abbrev NoNewline : List ℕ → Type 0
NoNewline [] = Unit {0}
NoNewline (c ∷ cs) = (c ≢ 10) × NoNewline cs

abbrev pub IsLine : List ℕ → Type 0
IsLine l = (length l < 39) × NoNewline l

abbrev pub AllLines : List (List ℕ) → Type 0
AllLines [] = Unit {0}
AllLines (l ∷ ls) = IsLine l × AllLines ls

-- The input that lines make.
abbrev pub typed : List (List ℕ) → List ℕ
typed [] = []
typed (l ∷ ls) = l ++ 10 ∷ typed ls

abbrev pub with_newline : List ℕ → List ℕ
with_newline l = l ++ 10 ∷ []

-- A line that starts with a dot, or with NUL.
abbrev pub has_last : List (List ℕ) → Bool
has_last [] = false
has_last (l ∷ ls) = is_last (with_newline l) || has_last ls

read_line-line :
    (n : ℕ) (l cs : List ℕ)
    → length l < n
    → NoNewline l
    → read_line n (l ++ 10 ∷ cs) ≡ (with_newline l, cs)
unfolding read_line
read_line-line zero l cs h x = absurd (omega arith)
read_line-line (suc n) [] cs h x = refl
read_line-line (suc n) (c ∷ l) cs h (d, x) =
    let e : (c == 10) ≡ false = ground arith in rw (e, read_line-line n l cs (omega arith) x) refl

pub fgets-line : (buf l cs : List ℕ) → IsLine l → fgets buf (l ++ 10 ∷ cs) ≡ (with_newline l, cs)
unfolding fgets
fgets-line buf [] cs (h, x) = read_line-line 39 [] cs h x
fgets-line buf (c ∷ l) cs (h, x) = read_line-line 39 (c ∷ l) cs h x

module _ (strtoul : List ℕ → Option ℕ) where
  mm_loop-ends :
      (ls : List (List ℕ)) (buf : List ℕ) (b : Bool) (a w : ℕ)
      → AllLines ls
      → has_last ls ≡ true
      → is_some (mm_loop strtoul (length ls) buf (typed ls) b a w) ≡ true
  unfolding mm_loop
  mm_loop-ends [] buf b a w g e = cc
  mm_loop-ends (l ∷ ls) buf b a w (g, gs) e = elim (Bool-cases (is_last (with_newline l))) [
    | inl x ↦ rw (fgets-line buf l (typed ls) g, x, mm_loop) refl
    | inr x ↦
        let (es, b', a') = obey strtoul (with_newline l) b a w in
        let more = mm_loop strtoul (length ls) (with_newline l) (typed ls) b' a' w in
        let ih = mm_loop-ends ls (with_newline l) b' a' w gs (ground arith) in
        elim (Option-cases more) [
          | inl n ↦ cc
          | inr (r, q) ↦ rw (fgets-line buf l (typed ls) g, x, q, mm_loop) refl
        ]
  ]

  mm_loop-endless :
      (k : ℕ) (ls : List (List ℕ)) (buf : List ℕ) (b : Bool) (a w : ℕ)
      → AllLines ls
      → is_last buf ≡ false
      → has_last ls ≡ false
      → mm_loop strtoul k buf (typed ls) b a w ≡ none
  unfolding mm_loop fgets
  mm_loop-endless zero ls buf b a w g n e = refl
  mm_loop-endless (suc k) [] buf b a w g n e =
      let (es, b', a') = obey strtoul buf b a w in
      rw (n, mm_loop-endless k [] buf b' a' w g n e, mm_loop) refl
  mm_loop-endless (suc k) (l ∷ ls) buf b a w (g, gs) n e =
      let x : is_last (with_newline l) ≡ false = ground arith in
      let (es, b', a') = obey strtoul (with_newline l) b a w in
      rw
        (
          fgets-line buf l (typed ls) g,
          x,
          mm_loop-endless k ls (with_newline l) b' a' w gs x (ground arith),
          mm_loop,
        )
        refl

  -- With lines of fewer than 39 characters, `mm` ends within as many turns as there are lines if one of
  -- them starts with a dot or with NUL, and otherwise, unless the buffer does so at the start, never: at
  -- the end of the input it goes on with the last line.
  pub mm-ends :
      (ls : List (List ℕ)) (buf : List ℕ) (address size : ℕ)
      → AllLines ls
      → is_last buf ≡ false
      → (has_last ls ≡ true → is_some (mm strtoul (length ls) buf (typed ls) address size) ≡ true)
        × (has_last ls ≡ false → (k : ℕ) → mm strtoul k buf (typed ls) address size ≡ none)
  unfolding mm
  mm-ends ls buf address size g n = (
    mm_loop-ends ls buf false address (word_size size) g,
    λ e k. mm_loop-endless k ls buf false address (word_size size) g n e,
  )
