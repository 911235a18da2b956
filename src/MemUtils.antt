-- ===== src/MemUtils.antt =====
-- miscUtils/memUtils.c: `md`, the memory image of `coredump`, and the numbers that its own main program
-- reads. Addresses are 32 bits wide.
pub mod Bat
pub mod Commands
pub mod Coredump
pub mod Dump
pub mod Image
pub mod Modify
pub mod Numbers
use rtems_ssrl_apps.Prelude.{
  ℕ, zero, suc, ◌+◌, ◌-◌, ◌*◌, ◌/◌, ◌%◌, ◌^◌, Bool, true, false, not, ◌&&◌, ◌||◌, Option, none,
  some, List, [], ◌∷◌, ◌++◌, ◌==◌, ltb, leb, if◌then◌else◌,
}
use rtems_ssrl_apps.Prelude.Int.{ℤ, pos, negsuc, is_neg}

abbrev pub u32 : ℕ → ℕ
u32 n = n % 2 ^ 32

-- What `md` prints: the start of a line with its address, a value of `size` bytes, the characters of
-- the bytes from an address up, the blanks of a short line, and the end.
pub data Piece : Type 0 where
  line_start : (address : ℕ) → Piece
  value : (address size : ℕ) → Piece
  chars : (start count : ℕ) → Piece
  blanks : ℕ → Piece
  end_line : Piece

-- `dumpchars(&oadd, end)`: the addresses from `oadd` to below `end`.
abbrev pub dumpchars : (oadd end : ℕ) → Piece
dumpchars oadd end = chars oadd (end - oadd)

-- `switch (size)`: 4 unless it is 1, 2 or 4.
abbrev pub word_size : ℕ → ℕ
word_size size = if size == 1 || (size == 2 || size == 4) then size else 4

-- The loop of `md` at `i`; `k` bounds its turns. The pieces, and `i`, `address` and `oadd` at the end.
unfoldable pub md_loop : (k i count size address oadd : ℕ) → List Piece × ℕ × ℕ × ℕ
md_loop zero i count size address oadd = ([], i, address, oadd)
md_loop (suc k) i count size address oadd =
    let next_oadd = if i % 16 == 0 && (not (i == 0) && ltb oadd address) then address else oadd in
    let lead =
      if i % 16 == 0
      then (if i == 0 then [] else dumpchars oadd address ∷ []) ++ line_start address ∷ []
      else [] in
    let (ps, j, a, o) = md_loop k (i + size) count size (u32 (address + size)) next_oadd in
    if ltb i count then (lead ++ value address size ∷ ps, j, a, o) else ([], i, address, oadd)

-- `md` of a count that is not negative. A turn moves `i` by one at least, so `count` turns are enough.
unfoldable pub md : (address count size : ℕ) → List Piece
unfolding md_loop
md address count size =
    let w = word_size size in
    let (ps, i, a, o) = md_loop count 0 count w address address in
    let rest =
      if ltb 0 count
      then blanks (((i + 15) / 16 * 16 - i) / w * (2 + 2 * w)) ∷ dumpchars o a ∷ []
      else [] in
    ps ++ (rest ++ end_line ∷ [])

-- A call `write(fd, start, len)`.
pub record Write : Type 0 where
  pub start : ℕ
  pub len : ℕ

-- The loop of `doWrite`: `written n len` is what the `n`-th `write` returns for `len` bytes, `k` bounds the
-- turns and `none` is the end of that bound. The writes, and `here` at the end, or no address where a
-- write fails.
unfoldable pub write_loop :
    (written : ℕ → ℕ → ℤ) → (k n here len : ℕ) → Option (List Write × Option ℕ)
write_loop written zero n here len = if len == 0 then some ([], some here) else none
write_loop written (suc k) n here len =
    let call : Write = record { start = here; len = len } in
    if len == 0 then some ([], some here) else elim (written n len) [
      | negsuc _ ↦ some (call ∷ [], none)
      | pos w ↦ elim (write_loop written k (n + 1) (u32 (here + w)) (u32 (len + 2 ^ 32 - w))) [
        | none ↦ none
        | some (ws, r) ↦ some (call ∷ ws, r)
      ]
    ]

-- A 32-bit word as an `int`.
abbrev pub to_int : ℕ → ℤ
to_int n = if ltb n (2 ^ 31) then pos n else negsuc (2 ^ 32 - 1 - n)

-- `doWrite`, in at most `len` turns: the writes and the value returned, -1 where a write fails.
unfoldable pub do_write : (written : ℕ → ℕ → ℤ) → (start len : ℕ) → Option (List Write × ℤ)
unfolding write_loop
do_write written start len = elim (write_loop written len 0 start len) [
  | none ↦ none
  | some (ws, r) ↦
      some (ws, elim r [ none ↦ negsuc 0 | some here ↦ to_int (u32 (here + 2 ^ 32 - start)) ])
]

-- `for (mem_size=1; mem_size<size; mem_size<<=1);`, from `mem_size` on, in `k` turns at most.
unfoldable pub round_up : (k mem_size size : ℕ) → Option ℕ
round_up zero mem_size size = if ltb mem_size size then none else some mem_size
round_up (suc k) mem_size size =
    let rest = round_up k (u32 (mem_size * 2)) size in
    if ltb mem_size size then rest else some mem_size

-- What `coredump` returns, the writes it makes and how often it closes the file.
pub record Dumped : Type 0 where
  pub code : ℤ
  pub writes : List Write
  pub closes : ℕ

abbrev pub image : ℤ → List Write → ℕ → Dumped
image c ws n = record { code = c; writes = ws; closes = n }

-- `cleanup:` behind a `doWrite`, on failure, or what follows.
then_write : List Write → Option (List Write × ℤ) → (List Write → Option Dumped) → Option Dumped
then_write ws none k = none
then_write ws (some (vs, negsuc c)) k = some (image (negsuc 0) (ws ++ vs) 1)
then_write ws (some (vs, pos c)) k = k (ws ++ vs)

-- `coredump`, with 31 turns to round: `bsp_mem_size` is the board's memory, `fd` what `open` returns,
-- `first` and `second` the `write` calls of the two `doWrite`, and `local` the address of `valAtZero`.
unfoldable pub coredump :
    (bsp_mem_size : ℕ) (fd : ℤ) (first second : ℕ → ℕ → ℤ) (local start size : ℕ) → Option Dumped
unfolding then_write
coredump bsp_mem_size fd first second local start size =
    let n = if size == 0 then bsp_mem_size else size in
    if n == 0
    then some (image (negsuc 0) [] 0)
    else if is_neg fd
    then some (image (negsuc 0) [] 0)
    else elim (round_up 31 1 n) [
      | none ↦ none
      | some mem_size ↦ then_write [] (do_write first local 4) λ ws.
          then_write ws (do_write second (u32 (start + 4)) (u32 (mem_size + 2 ^ 32 - 4)))
            λ vs. some (image (pos mem_size) vs 1)
    ]

-- The main program's input, its current character first.
abbrev pub to_upper : ℕ → ℕ
to_upper c = if leb 97 c && leb c 122 then c - 32 else c

-- `valdig`: the digit that a character is, in the base.
unfoldable pub valdig : (c base : ℕ) → Option ℕ
valdig c base =
    if leb 48 c && leb c 55
    then some (c - 48)
    else if leb 56 c && leb c 57
    then (if leb base 8 then none else some (c - 48))
    else if base == 16
    then (if leb 65 (to_upper c) && leb (to_upper c) 70 then some (to_upper c - 55) else none)
    else none

-- The loop over the digits, from the value `acc` on. `*pn` is an `int`, kept as its 32 bits: where C leaves
-- the overflow undefined, the processor wraps around.
unfoldable pub digits : (base acc : ℕ) → List ℕ → ℕ × List ℕ
unfolding valdig
digits base acc [] = (acc, [])
digits base acc (c ∷ cs) = elim (valdig c base) [
  | none ↦ (acc, c ∷ cs)
  | some d ↦ digits base (u32 (acc * base + d)) cs
]

-- The digits in a base, one at least.
some_digits : (base : ℕ) → List ℕ → Option ℕ × List ℕ
unfolding digits
some_digits base [] = (none, [])
some_digits base (c ∷ cs) = elim (valdig c base) [
  | none ↦ (none, c ∷ cs)
  | some d ↦ let (n, rest) = digits base d cs in (some n, rest)
]

abbrev is_digit : ℕ → Bool
is_digit c = leb 48 c && leb c 57

-- What follows a leading `0`.
after_zero : List ℕ → Option ℕ × List ℕ
unfolding some_digits
after_zero [] = (none, [])
after_zero (c ∷ cs) =
    if c == 120 || c == 88
    then some_digits 16 cs
    else if leb 48 c && leb c 55
    then some_digits 8 (c ∷ cs)
    else some_digits 10 (c ∷ cs)

-- `getn`: the number as a 32-bit word, `none` for -1, and the input left.
unfoldable pub getn : List ℕ → Option ℕ × List ℕ
unfolding after_zero some_digits
getn [] = (none, [])
getn (c ∷ cs) =
    if c == 32 || c == 9
    then getn cs
    else if c == 48
    then after_zero cs
    else if is_digit c
    then some_digits 10 (c ∷ cs)
    else (none, c ∷ cs)
