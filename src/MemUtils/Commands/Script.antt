-- ===== src/MemUtils/Commands/Script.antt =====
-- What the main program of miscUtils/memUtils.c makes of dumps that are typed.
use rtems_ssrl_apps.Prelude.{ℕ, ◌^◌, ◌<◌, List, [], ◌∷◌, ◌++◌, map}
use rtems_ssrl_apps.MemUtils.{word_size, md}
use rtems_ssrl_apps.MemUtils.Numbers
use rtems_ssrl_apps.MemUtils.Numbers.{AllDigits, digit_char}
use rtems_ssrl_apps.MemUtils.Commands.{Done, dumped}

-- A decimal number that does not start with 0; it is to be below 2 ^ 31, as an `int` is.
pub record Numeral : Type 0 where
  pub first : ℕ
  pub others : List ℕ

pub record IsNumeral (n : Numeral) : Type 0 where
  pub positive : 0 < n.first
  pub digit : n.first < 10
  pub digits : AllDigits n.others
  pub fits : Numbers.number n.first n.others < 2 ^ 31

abbrev pub value_of : Numeral → ℕ
value_of n = Numbers.number n.first n.others

abbrev pub typed : Numeral → List ℕ → List ℕ
typed n rest = map digit_char (n.first ∷ n.others) ++ rest

-- "d" with an address, with a count as well, and with all three numbers.
pub data Entry : Type 0 where
  bare : (address : Numeral) → Entry
  counted : (address count : Numeral) → Entry
  sized : (address count size : Numeral) → Entry

abbrev pub IsEntry : Entry → Type 0
IsEntry (bare a) = IsNumeral a
IsEntry (counted a c) = IsNumeral a × IsNumeral c
IsEntry (sized a c s) = IsNumeral a × IsNumeral c × IsNumeral s

abbrev pub AllEntries : List Entry → Type 0
AllEntries [] = Unit {0}
AllEntries (e ∷ es) = IsEntry e × AllEntries es

abbrev pub numbers_of : Entry → List ℕ → List ℕ
numbers_of (bare a) rest = typed a (10 ∷ rest)
numbers_of (counted a c) rest = typed a (32 ∷ typed c (10 ∷ rest))
numbers_of (sized a c s) rest = typed a (32 ∷ typed c (32 ∷ typed s (10 ∷ rest)))

-- The lines of the entries, and a "q".
abbrev pub script : List Entry → List ℕ
script [] = 113 ∷ []
script (e ∷ es) = 100 ∷ 32 ∷ numbers_of e (script es)

-- What the entries do, where the variable `s` has some value.
abbrev pub size_behind : Entry → ℕ → ℕ
size_behind (bare a) s = s
size_behind (counted a c) s = 4
size_behind (sized a c n) s = word_size (value_of n)

abbrev pub done_of : Entry → ℕ → Done
done_of (bare a) s = dumped (md (value_of a) 16 s)
done_of (counted a c) s = dumped (md (value_of a) (value_of c) 4)
done_of (sized a c n) s = dumped (md (value_of a) (value_of c) (word_size (value_of n)))

abbrev pub outcome : List Entry → (size : ℕ) → List Done
outcome [] s = []
outcome (e ∷ es) s = done_of e s ∷ outcome es (size_behind e s)
