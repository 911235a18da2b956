-- ===== src/Tests/Memory.antt =====
-- Runs of the memory utilities at the keyboard, and of the BAT registers.
use rtems_ssrl_apps.Prelude.{
  ℕ, ◌-◌, ◌≡◌, refl, Bool, false, Option, none, some, List, [], ◌∷◌, arith, codes, if◌then◌else◌,
  leb,
}
use rtems_ssrl_apps.MemUtils.{word_size}
use rtems_ssrl_apps.MemUtils.Modify.{shown, stored, mm}
use rtems_ssrl_apps.MemUtils.Modify.Values.{
  Entry, number, back, forth, skip, input_of, outcome, mm-outcome,
}
use rtems_ssrl_apps.MemUtils.Bat.Fields.{Block, upper, lower}

-- A text that starts with a digit is a number of one digit.
abbrev digit : List ℕ → Option ℕ
digit [] = none
digit (c ∷ _) = if leb 48 c then (if leb c 57 then some (c - 48) else none) else none

abbrev two_lines : List (List ℕ)
two_lines = codes "7" ∷ codes "." ∷ []

-- Numbers, a bare newline and both changes of direction.
abbrev entries : List Entry
entries =
    number (codes "7") 7 ∷ skip ∷ back ∷ number (codes "9") 9 ∷ forth ∷ number (codes "3") 3 ∷ []

mm-outcome_example :
    mm digit 7 [] (input_of digit entries []) 0x100 4
    ≡ some (outcome entries false 0x100 (word_size 4), [])
mm-outcome_example = mm-outcome digit entries [] [] 0x100 4 (ground arith)

stores :
    outcome entries false 0x100 4
    ≡ shown 0x100 4
      ∷ stored 0x100 4 7
      ∷ shown 0x104 4
      ∷ shown 0x108 4
      ∷ shown 0x104 4
      ∷ stored 0x104 4 9
      ∷ shown 0x100 4
      ∷ shown 0x104 4
      ∷ stored 0x104 4 3
      ∷ shown 0x108 4
      ∷ []
stores = refl

-- 256M at 0x80000000.
abbrev block : Block
block = record {
  effective = 0x4000;
  physical = 0x4000;
  order = 11;
  vs = 1;
  vp = 0;
  wimg = 2;
  access = 2;
}

abbrev registers : Bool → ℕ → ℕ × ℕ
registers d i = (upper block, lower block)
