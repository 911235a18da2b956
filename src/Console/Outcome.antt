-- ===== src/Console/Outcome.antt =====
-- What the console tools of miscUtils/ do on success and on failure.
use rtems_ssrl_apps.Prelude.{
  ℕ, zero, suc, ◌+◌, ◌-◌, ◌<◌, ◌≤◌, ◌≡◌, ◌↔◌, refl, ap, true, false, Option, some, List, [], ◌∷◌,
  ◌++◌, ◌==◌, arith, length, leb,
}
use rtems_ssrl_apps.Prelude.Int.{ℤ, pos, is_neg, is_nonzero}
use rtems_ssrl_apps.Console.{
  is_speed, Terminal, apply_speed, sttyspeed, take, drop, buffer_size, read_size, cat_loop, cat,
}

-- The terminal takes a speed.
pub record Accepts (t : Terminal) : Type 0 where
  pub fd : is_neg t.open_fd ≡ false
  pub tty : t.isatty ≡ true
  pub got : is_nonzero t.tcgetattr ≡ false
  pub input : is_nonzero t.cfsetispeed ≡ false
  pub output : is_nonzero t.cfsetospeed ≡ false
  pub set : is_nonzero t.tcsetattr ≡ false

-- `sttyspeed` returns 0 exactly if the speed is one of its table and no call on the terminal fails, and has
-- then given that speed; whatever fails, it closes the terminal as often as it has opened it.
pub sttyspeed-Accepts :
    (t : Terminal) (speed : ℕ)
    → let r = sttyspeed t speed in
      ((r.code ≡ pos 0) ↔ ((is_speed speed ≡ true) × Accepts t))
      × (r.code ≡ pos 0 → r.given ≡ some speed)
      × (r.closes ≡ r.opens)
unfolding sttyspeed apply_speed
sttyspeed-Accepts t speed = ground arith

take-drop : (n : ℕ) (xs : List ℕ) → take n xs ++ drop n xs ≡ xs
take-drop zero xs = refl
take-drop (suc n) [] = refl
take-drop (suc n) (x ∷ xs) = ap (◌∷◌ x) (take-drop n xs)

length-drop : (n : ℕ) (xs : List ℕ) → length (drop n xs) ≡ length xs - n
length-drop zero xs = omega arith
length-drop (suc n) [] = omega arith
length-drop (suc n) (x ∷ xs) = omega (arith, length-drop n xs)

-- `read` of a file that can be read: it gives a byte at least where there is one, not more than it is asked
-- for, and at the end none.
pub record Reads (read : ℕ → List ℕ → Option ℕ) : Type 0 where
  pub some_bytes :
      (size : ℕ) (x : ℕ) (xs : List ℕ)
      → 0 < size
      → (n : ℕ) × (read size (x ∷ xs) ≡ some n) × (0 < n) × (n ≤ size)
  pub at_end : (size : ℕ) → read size [] ≡ some 0

cat_loop-all :
    (read : ℕ → List ℕ → Option ℕ) (k : ℕ) (left : List ℕ)
    → Reads read
    → length left < k
    → cat_loop read k left ≡ some left
unfolding cat_loop
cat_loop-all read zero left h b = absurd (omega arith)
cat_loop-all read (suc k) [] h b = rw (h.at_end read_size, cat_loop) refl
cat_loop-all read (suc k) (x ∷ xs) h b =
    let (n, e, p, l) = h.some_bytes read_size x xs (omega arith) in
    let z : (n == 0) ≡ false = ground arith in
    let m : leb buffer_size n ≡ false = ground arith in
    let shorter : length (drop n (x ∷ xs)) < k = omega (arith, length-drop n (x ∷ xs)) in
    rw (e, z, m, cat_loop-all read k (drop n (x ∷ xs)) h shorter, cat_loop)
      (ap some (take-drop n (x ∷ xs)))

-- With a `read` that obeys, `cat` of a file that opens writes its contents, never the NUL behind its buffer,
-- closes it once and returns 0.
pub cat-contents :
    (fd : ℤ) (read : ℕ → List ℕ → Option ℕ) (contents : List ℕ)
    → is_neg fd ≡ false
    → Reads read
    → cat fd read contents ≡ some (record { code = pos 0; output = contents; closes = 1 })
unfolding cat
cat-contents fd read contents o h =
    rw (o, cat_loop-all read (length contents + 1) contents h (omega arith), cat) refl
