-- ===== src/Console.antt =====
-- The tools of miscUtils/ for the console: `sttyspeed` of ttyconfi.c and `cat` of fileUtils.c.
pub mod Outcome
use rtems_ssrl_apps.Prelude.{
  ℕ, zero, suc, ◌+◌, ◌-◌, leb, length, Bool, true, false, not, ◌||◌, Option, none, some, List, [],
  ◌∷◌, ◌++◌, ◌==◌, if◌then◌else◌,
}
use rtems_ssrl_apps.Prelude.Int.{ℤ, pos, is_neg, minus_one, is_nonzero}

-- The speeds of the switch of `sttyspeed`.
abbrev pub speeds : List ℕ
speeds =
    0 ∷ 50 ∷ 75 ∷ 110 ∷ 134 ∷ 150 ∷ 200 ∷ 300 ∷ 600 ∷ 1200 ∷ 1800 ∷ 2400 ∷ 4800 ∷ 9600 ∷ 19200
    ∷ 38400 ∷ 57600 ∷ 115200 ∷ 230400 ∷ []

abbrev pub is_in : ℕ → List ℕ → Bool
is_in n [] = false
is_in n (x ∷ xs) = n == x || is_in n xs

unfoldable pub is_speed : ℕ → Bool
is_speed n = is_in n speeds

-- What the calls on the terminal return.
pub record Terminal : Type 0 where
  pub open_fd : ℤ
  pub isatty : Bool
  pub tcgetattr : ℤ
  pub cfsetispeed : ℤ
  pub cfsetospeed : ℤ
  pub tcsetattr : ℤ

-- The value returned, the speed that `tcsetattr` is given, and how often a descriptor is opened and closed.
pub record Stty : Type 0 where
  pub code : ℤ
  pub given : Option ℕ
  pub opens : ℕ
  pub closes : ℕ

-- Behind the open, up to `bail`: what is returned and the speed that is given.
unfoldable pub apply_speed : Terminal → ℕ → ℤ × Option ℕ
apply_speed t speed =
    if not t.isatty
    then (minus_one, none)
    else if is_nonzero t.tcgetattr
    then (minus_one, none)
    else if is_nonzero t.cfsetispeed || is_nonzero t.cfsetospeed
    then (minus_one, none)
    else if is_nonzero t.tcsetattr
    then (minus_one, some speed)
    else (pos 0, some speed)

-- `speed` is not negative; the terminal's constants B0 to B230400 stand for their speeds.
unfoldable pub sttyspeed : Terminal → (speed : ℕ) → Stty
sttyspeed t speed =
    if not (is_speed speed)
    then record { code = minus_one; given = none; opens = 0; closes = 0 }
    else if is_neg t.open_fd
    then record { code = minus_one; given = none; opens = 0; closes = 0 }
    else (let r = apply_speed t speed in record { code = r.0; given = r.1; opens = 1; closes = 1 })

abbrev pub take : ℕ → List ℕ → List ℕ
take zero xs = []
take (suc n) [] = []
take (suc n) (x ∷ xs) = x ∷ take n xs

abbrev pub drop : ℕ → List ℕ → List ℕ
drop zero xs = xs
drop (suc n) [] = []
drop (suc n) (x ∷ xs) = drop n xs

-- `char buf[4096]`, and the number of bytes that `read` is asked for.
abbrev pub buffer_size : ℕ
buffer_size = 4096

abbrev pub read_size : ℕ
read_size = buffer_size - 1

-- The loop of `cat`: `read size left` is what `read` returns for `size` bytes where the file has `left` to come,
-- `none` for a failure; `k` bounds the turns. The output, or the end of that bound. A write of the closing
-- NUL out of the buffer is `none` as well.
unfoldable pub cat_loop :
    (read : ℕ → List ℕ → Option ℕ) → (k : ℕ) → (left : List ℕ) → Option (List ℕ)
cat_loop read zero left = none
cat_loop read (suc k) left = elim (read read_size left) [
  | none ↦ some []
  | some n ↦
      let rest = cat_loop read k (drop n left) in
      if n == 0
      then some []
      else if leb buffer_size n
      then none
      else elim rest [ none ↦ none | some out ↦ some (take n left ++ out) ]
]

-- The value returned, the output and how often the file is closed.
pub record Cat : Type 0 where
  pub code : ℤ
  pub output : List ℕ
  pub closes : ℕ

-- `fd` is what `open` returns for a file of these contents. A turn reads a byte at least, and the last one none.
unfoldable pub cat : (fd : ℤ) → (read : ℕ → List ℕ → Option ℕ) → (contents : List ℕ) → Option Cat
cat fd read contents =
    if is_neg fd
    then some (record { code = minus_one; output = []; closes = 0 })
    else elim (cat_loop read (length contents + 1) contents) [
      | none ↦ none
      | some out ↦ some (record { code = pos 0; output = out; closes = 1 })
    ]
