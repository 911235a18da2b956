-- ===== src/MemUtils/Commands.antt =====
-- The main program of miscUtils/memUtils.c, which reads commands from the keyboard.
pub mod Script
use rtems_ssrl_apps.Prelude.{
  ℕ, zero, suc, ◌+◌, Option, none, some, List, [], ◌∷◌, ◌^◌, ◌==◌, ltb, if◌then◌else◌,
}
use rtems_ssrl_apps.MemUtils.{Piece, word_size, md, getn}
use rtems_ssrl_apps.MemUtils.Modify
use rtems_ssrl_apps.MemUtils.Modify.{mm}

-- What a command does: `mm`, `md`, or a message on the usage or on the command.
pub data Done : Type 0 where
  modified : List Modify.Event → Done
  dumped : List Piece → Done
  usage : Done
  invalid : Done

-- The end of a command: what it did, the variable `s`, and the input, its current character first.
pub record Turn : Type 0 where
  pub done : Done
  pub size : ℕ
  pub input : List ℕ

abbrev pub one_turn : Done → ℕ → List ℕ → Turn
one_turn d s cs = record { done = d; size = s; input = cs }

-- `while ('\n' != ch) ch = getchar();`: the input behind the newline, or `none` for a loop that does not end.
unfoldable pub skip_line : List ℕ → Option (List ℕ)
skip_line [] = none
skip_line (c ∷ cs) = if c == 10 then some cs else skip_line cs

-- The size given to `mm`, or to `md` where a count is given.
abbrev pub given_size : Option ℕ → ℕ
given_size none = 4
given_size (some n) = word_size n

-- A count is an `int`; `md` prints no value for a negative one, as for 0.
abbrev pub int_count : ℕ → ℕ
int_count n = if ltb n (2 ^ 31) then n else 0

-- `case 'd'`, behind the count; without one, `s` is not set.
unfoldable pub dump_count : (address size : ℕ) → Option ℕ × List ℕ → Turn
dump_count a s (none, cs) = one_turn (dumped (md a 16 s)) s cs
dump_count a s (some n, cs) =
    let (m, rest) = getn cs in
    one_turn (dumped (md a (int_count n) (given_size m))) (given_size m) rest

unfoldable pub dump_at : (size : ℕ) → Option ℕ × List ℕ → Turn
dump_at s (none, cs) = one_turn usage s cs
dump_at s (some a, cs) = dump_count a s (getn cs)

-- The end of a turn, and those behind it: `rest` is the loop from a variable `s` and an input on.
unfoldable pub behind : (ℕ → List ℕ → Option (List Done)) → Option Turn → Option (List Done)
behind rest none = none
behind rest (some t) = elim (skip_line t.input) [
  | none ↦ none
  | some cs ↦ elim (rest t.size cs) [ none ↦ none | some ds ↦ some (t.done ∷ ds) ]
]

-- `strtoul`, the turns of `mm`, and what stands in its buffer before.
module _ (strtoul : List ℕ → Option ℕ) (k : ℕ) (buf : List ℕ) where
  -- `mm` reads what is behind the current character.
  modify : (address size : ℕ) → List ℕ → Option Turn
  modify address size [] = elim (mm strtoul k buf [] address size) [
    | none ↦ none
    | some (es, left) ↦ some (one_turn (modified es) size left)
  ]
  modify address size (c ∷ cs) = elim (mm strtoul k buf cs address size) [
    | none ↦ none
    | some (es, left) ↦ some (one_turn (modified es) size (c ∷ left))
  ]

  -- `case 'm'`, behind the address.
  modify_at : (size : ℕ) → Option ℕ × List ℕ → Option Turn
  unfolding modify
  modify_at s (none, cs) = some (one_turn usage s cs)
  modify_at s (some a, cs) = let (n, rest) = getn cs in modify a (given_size n) rest

  -- A command and the characters behind it; `none` is one that does not end.
  unfoldable pub command : (size c : ℕ) → List ℕ → Option Turn
  unfolding modify_at
  command s c cs =
      if c == 109
      then modify_at s (getn cs)
      else if c == 100
      then some (dump_at s (getn cs))
      else some (one_turn invalid s (c ∷ cs))

  -- The loop, in `n` turns at most: `none` is the end of that bound, or a turn that does not end.
  unfoldable pub main_loop : (n size : ℕ) → List ℕ → Option (List Done)
  main_loop zero s cs = none
  main_loop (suc n) s [] = some []
  main_loop (suc n) s (c ∷ cs) = if c == 113 then some [] else behind (main_loop n) (command s c cs)
