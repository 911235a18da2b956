-- ===== src/Tests/MemUtils.antt =====
-- Runs of the memory utilities.
use rtems_ssrl_apps.Prelude.{ℕ, ◌≡◌, refl, some, [], ◌∷◌, arith, ltb, if◌then◌else◌}
use rtems_ssrl_apps.Prelude.Int.{ℤ, pos}
use rtems_ssrl_apps.MemUtils.{
  line_start, value, chars, blanks, end_line, md, do_write, Dumped, coredump,
}
use rtems_ssrl_apps.MemUtils.Coredump.{Closed, coredump-Closed}
use rtems_ssrl_apps.MemUtils.Image.{Obeys}

-- 18 bytes in words of four: a full line and a word.
md_of_18 :
    md 0x1000 18 4
    ≡ line_start 0x1000
      ∷ value 0x1000 4
      ∷ value 0x1004 4
      ∷ value 0x1008 4
      ∷ value 0x100c 4
      ∷ chars 0x1000 16
      ∷ line_start 0x1010
      ∷ value 0x1010 4
      ∷ blanks 30
      ∷ chars 0x1010 4
      ∷ end_line
      ∷ []
unfolding md
md_of_18 = refl

-- A file system that takes four bytes at a time.
abbrev by_four : ℕ → ℕ → ℤ
by_four n len = pos (if ltb len 4 then len else 4)

by_four-Obeys : Obeys by_four
by_four-Obeys n len w l e = ground arith

ten_bytes :
    do_write by_four 0x1000 10
    ≡ some (
      record { start = 0x1000; len = 10 }
          ∷ record { start = 0x1004; len = 6 }
          ∷ record { start = 0x1008; len = 2 }
          ∷ [],
      pos 10,
    )
unfolding do_write
ten_bytes = refl

-- 1000 bytes at 0x2000, written four at a time.
coredump-Closed_example :
    (i : Dumped) × (coredump 0 (pos 3) by_four by_four 0x1000 0x2000 1000 ≡ some i)
    × Closed by_four by_four 0x1000 0x2000 1000 i
coredump-Closed_example =
    coredump-Closed 0 (pos 3) by_four by_four 0x1000 0x2000 1000 refl by_four-Obeys by_four-Obeys
      (omega arith) (omega arith) (omega arith) (omega arith)
