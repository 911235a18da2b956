-- ===== src/MemUtils/Coredump.antt =====
-- What `coredump` of miscUtils/memUtils.c returns.
use rtems_ssrl_apps.Prelude.{
  ℕ, ◌+◌, ◌-◌, ◌*◌, ◌^◌, ◌≤◌, ◌<◌, ◌≡◌, refl, ap, ◌∙◌, true, false, ltb, Option, none, some, List,
  [], ◌++◌, arith, ◌==◌,
}
use rtems_ssrl_apps.Prelude.Int.{ℤ, pos, negsuc, is_neg}
use rtems_ssrl_apps.MemUtils.{
  u32, Write, write_loop, do_write, round_up, Dumped, image, then_write, coredump, to_int,
}
use rtems_ssrl_apps.MemUtils.Image.{
  Obeys, Wrote, done, next, write_loop-Wrote, round_up-ends, round_up_le,
}

-- The value for the address at the end.
abbrev value_of : ℕ → Option ℕ → ℤ
value_of start none = negsuc 0
value_of start (some here) = to_int (u32 (here + 2 ^ 32 - start))

do_write-write_loop :
    (written : ℕ → ℕ → ℤ) (start len : ℕ) (ws : List Write) (r : Option ℕ)
    → write_loop written len 0 start len ≡ some (ws, r)
    → do_write written start len ≡ some (ws, value_of start r)
unfolding do_write
do_write-write_loop written start len ws none e = rw (e, do_write) refl
do_write-write_loop written start len ws (some here) e = rw (e, do_write) refl

-- `doWrite` has written all `l` bytes from `a` on, in the writes of the list, or a write has failed.
pub data IsWritten (written : ℕ → ℕ → ℤ) (a l : ℕ) : List Write → ℤ → Type 0 where
  whole :
      {ws : List Write} → Wrote written 0 a l ws (some (a + l)) → IsWritten written a l ws (pos l)
  broken : {ws : List Write} → Wrote written 0 a l ws none → IsWritten written a l ws (negsuc 0)

end-Wrote :
    {written : ℕ → ℕ → ℤ} {n a l h : ℕ} {ws : List Write}
    → Wrote written n a l ws (some h)
    → h ≡ a + l
end-Wrote done = omega arith
end-Wrote (next p e z w) = let k = end-Wrote w in omega arith

value_of-pos :
    (start l : ℕ) → start + l < 2 ^ 32 → l < 2 ^ 31 → value_of start (some (start + l)) ≡ pos l
value_of-pos start l b h =
    let e : u32 (start + l + 2 ^ 32 - start) ≡ l = omega arith in
    let m : ltb l (2 ^ 31) ≡ true = ground arith in ap to_int e ∙ rw m refl

value_of-IsWritten :
    (written : ℕ → ℕ → ℤ) (start len : ℕ) (ws : List Write) (r : Option ℕ)
    → start + len < 2 ^ 32
    → len < 2 ^ 31
    → Wrote written 0 start len ws r
    → IsWritten written start len ws (value_of start r)
value_of-IsWritten written start len ws none b h w = broken w
value_of-IsWritten written start len ws (some e) b h w =
    let q = end-Wrote w in rw (q, value_of-pos start len b h) (whole (rw⁻¹ q w))

do_write-IsWritten :
    (written : ℕ → ℕ → ℤ) (start len : ℕ)
    → Obeys written
    → start + len < 2 ^ 32
    → len < 2 ^ 31
    → (ws : List Write) × (c : ℤ) × (do_write written start len ≡ some (ws, c))
      × IsWritten written start len ws c
do_write-IsWritten written start len o b h =
    let (ws, r, e, w) = write_loop-Wrote written len 0 start len o (omega arith) b in
    (
      ws,
      value_of start r,
      do_write-write_loop written start len ws r e,
      value_of-IsWritten written start len ws r b h w,
    )

-- The file is closed once, behind: a whole image of a power of two of bytes, at least `size` and below its
-- double, its first four bytes from `local` and the others the memory behind the first four from `start`
-- on; or a write that failed, of the first four bytes or of the others.
pub data Closed (first second : ℕ → ℕ → ℤ) (local start size : ℕ) : Dumped → Type 0 where
  complete :
      {m : ℕ} {us vs : List Write}
      → size ≤ m
      → m < 2 * size
      → Wrote first 0 local 4 us (some (local + 4))
      → Wrote second 0 (start + 4) (m - 4) vs (some (start + m))
      → Closed first second local start size (image (pos m) (us ++ vs) 1)
  no_start :
      {us : List Write}
      → Wrote first 0 local 4 us none
      → Closed first second local start size (image (negsuc 0) us 1)
  no_rest :
      (m : ℕ) {us vs : List Write}
      → size ≤ m
      → m < 2 * size
      → Wrote first 0 local 4 us (some (local + 4))
      → Wrote second 0 (start + 4) (m - 4) vs none
      → Closed first second local start size (image (negsuc 0) (us ++ vs) 1)

-- The second write of an image of `m` bytes, behind the writes `us` of the first.
second_write :
    (first second : ℕ → ℕ → ℤ) (local start size m : ℕ) (us vs : List Write) (c : ℤ)
    → 4 ≤ m
    → size ≤ m
    → m < 2 * size
    → Wrote first 0 local 4 us (some (local + 4))
    → IsWritten second (start + 4) (m - 4) vs c
    → (i : Dumped) × (then_write us (some (vs, c)) (λ ws. some (image (pos m) ws 1)) ≡ some i)
      × Closed first second local start size i
unfolding then_write
second_write first second local start size m us vs (pos c) f low high w (whole x) =
    let e : start + 4 + (m - 4) ≡ start + m = omega arith in
    (image (pos m) (us ++ vs) 1, refl, complete low high w (rw⁻¹ e x))
second_write first second local start size m us vs (negsuc c) f low high w (broken x) =
    (image (negsuc 0) (us ++ vs) 1, refl, no_rest m low high w x)

-- The two writes of an image of `m` bytes.
abbrev write_image : (first second : ℕ → ℕ → ℤ) (local start m : ℕ) → Option Dumped
write_image first second local start m = then_write [] (do_write first local 4) λ ws.
    then_write ws (do_write second (u32 (start + 4)) (u32 (m + 2 ^ 32 - 4)))
      λ vs. some (image (pos m) vs 1)

first_write :
    (first second : ℕ → ℕ → ℤ) (local start size m : ℕ) (us vs : List Write) (c d : ℤ)
    → 4 ≤ m
    → size ≤ m
    → m < 2 * size
    → IsWritten first local 4 us c
    → IsWritten second (start + 4) (m - 4) vs d
    → (i : Dumped) × (then_write []
          (some (us, c))
          (λ ws. then_write ws (some (vs, d)) (λ xs. some (image (pos m) xs 1)))
        ≡ some i)
      × Closed first second local start size i
unfolding then_write
first_write first second local start size m us vs (pos c) d f low high (whole w) x =
    second_write first second local start size m us vs d f low high w x
first_write first second local start size m us vs (negsuc c) d f low high (broken w) x =
    (image (negsuc 0) us 1, refl, no_start w)

coredump-write_image :
    (bsp : ℕ) (fd : ℤ) (first second : ℕ → ℕ → ℤ) (local start size m : ℕ)
    → is_neg fd ≡ false
    → (size == 0) ≡ false
    → round_up 31 1 size ≡ some m
    → coredump bsp fd first second local start size ≡ write_image first second local start m
unfolding coredump
coredump-write_image bsp fd first second local start size m f n e = rw (n, n, f, e) refl

write_image-Closed :
    (first second : ℕ → ℕ → ℤ) (local start size m : ℕ)
    → Obeys first
    → Obeys second
    → 4 ≤ m
    → size ≤ m
    → m < 2 * size
    → m ≤ 2 ^ 31
    → local + 4 < 2 ^ 32
    → start + m < 2 ^ 32
    → (i : Dumped) × (write_image first second local start m ≡ some i)
      × Closed first second local start size i
write_image-Closed first second local start size m o q four low high top l b =
    let (us, c, d, w) = do_write-IsWritten first local 4 o l (omega arith) in
    let (vs, a, g, x) =
      do_write-IsWritten second (start + 4) (m - 4) q (omega arith) (omega arith) in
    let e : u32 (start + 4) ≡ start + 4 = omega arith in
    let f : u32 (m + 2 ^ 32 - 4) ≡ m - 4 = omega arith in
    rw (e, f, d, g) (first_write first second local start size m us vs c a four low high w x)

-- With writes that obey, `coredump` of 4 to 2 ^ 31 bytes within the address space to a file that opens
-- ends, and closes the file once. It returns the size of an image that it has written as a whole, each
-- write where the last one ended: four bytes from the address of the word that stands for address 0, then
-- the memory behind the first four bytes from the start on; the size asked for at least, and below its
-- double. Or it returns -1, with a write that failed as its last.
pub coredump-Closed :
    (bsp_mem_size : ℕ) (fd : ℤ) (first second : ℕ → ℕ → ℤ) (local start size : ℕ)
    → is_neg fd ≡ false
    → Obeys first
    → Obeys second
    → 4 ≤ size
    → size ≤ 2 ^ 31
    → local + 4 < 2 ^ 32
    → start + 2 * size ≤ 2 ^ 32
    → (i : Dumped) × (coredump bsp_mem_size fd first second local start size ≡ some i)
      × Closed first second local start size i
coredump-Closed bsp fd first second local start size f o q s t l b =
    let (m, e, low, high) = round_up-ends size (omega arith) t in
    let (i, h, z) =
      write_image-Closed first second local start size m o q (omega arith) low high
        (round_up_le size e) l (omega arith) in
    (i, coredump-write_image bsp fd first second local start size m f (ground arith) e ∙ h, z)
