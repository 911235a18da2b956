-- ===== src/MemUtils/Bat.antt =====
-- `pbat` of miscUtils/memUtils.c: how a pair of BAT registers is shown.
pub mod Fields
use rtems_ssrl_apps.Prelude.{
  ℕ, ◌+◌, ◌-◌, ◌*◌, ◌/◌, ◌%◌, ◌^◌, Bool, Option, none, some, ◌==◌, leb, if◌then◌else◌,
}
use rtems_ssrl_apps.Prelude.Int.{ℤ, pos, minus_one}
use rtems_ssrl_apps.MemUtils.{u32}

-- What is printed of a pair. The size is that of 128k doubled so many times, and `none` is "INVALID".
pub record Shown : Type 0 where
  pub effective : ℕ
  pub block_mask : ℕ
  pub size : Option ℕ
  pub physical : ℕ
  pub wimg : ℕ
  pub access : ℕ
  pub vs : ℕ
  pub vp : ℕ

-- `switch (bl)`.
unfoldable pub block_size : ℕ → Option ℕ
block_size bl =
    if bl == 2 ^ 0 - 1
    then some 0
    else if bl == 2 ^ 1 - 1
    then some 1
    else if bl == 2 ^ 2 - 1
    then some 2
    else if bl == 2 ^ 3 - 1
    then some 3
    else if bl == 2 ^ 4 - 1
    then some 4
    else if bl == 2 ^ 5 - 1
    then some 5
    else if bl == 2 ^ 6 - 1
    then some 6
    else if bl == 2 ^ 7 - 1
    then some 7
    else if bl == 2 ^ 8 - 1
    then some 8
    else if bl == 2 ^ 9 - 1
    then some 9
    else if bl == 2 ^ 10 - 1
    then some 10
    else if bl == 2 ^ 11 - 1
    then some 11
    else none

-- The fields of the upper word `u` and the lower word `l`; the masks are those of low bits, written as
-- remainders.
unfoldable pub decode : (u l : ℕ) → Shown
decode u l =
    let bl = u % 2 ^ 13 / 2 ^ 2 in
    record {
      effective = u - u % 2 ^ 17;
      block_mask = u32 ((2 ^ 32 - 1 - bl) * 2 ^ 17);
      size = block_size bl;
      physical = l - l % 2 ^ 17;
      wimg = l / 2 ^ 3 % 2 ^ 4;
      access = l % 2 ^ 2;
      vs = u % 2 ^ 2 / 2 * 2;
      vp = u % 2;
    }

-- `pbat`: `registers` are the pairs of the two kinds, the upper word first. The value returned, and what
-- is shown.
unfoldable pub pbat :
    (registers : (dbat : Bool) → (bat : ℕ) → ℕ × ℕ) → (bat : ℕ) → (dbat : Bool) → ℤ × Option Shown
pbat registers bat dbat =
    let (u, l) = registers dbat bat in
    if leb bat 3 then (pos 0, some (decode u l)) else (minus_one, none)
