-- ===== src/MemUtils/Modify.antt =====
-- `mm` of miscUtils/memUtils.c, by which memory is shown and changed from the keyboard.
pub mod Stop
pub mod Values
use rtems_ssrl_apps.Prelude.{
  ℕ, zero, suc, ◌+◌, ◌-◌, ◌*◌, ◌%◌, ◌^◌, Bool, true, false, not, ◌||◌, Option, none, some, List, [],
  ◌∷◌, ◌++◌, ◌==◌, if◌then◌else◌,
}
use rtems_ssrl_apps.MemUtils.{u32, to_upper, word_size}

-- What `mm` does: it shows the value of `size` bytes at an address, and stores one.
pub data Event : Type 0 where
  shown : (address size : ℕ) → Event
  stored : (address size value : ℕ) → Event

-- The text that `fgets` reads for at most `n` more characters, and the input behind it.
unfoldable pub read_line : (n : ℕ) → List ℕ → List ℕ × List ℕ
read_line zero cs = ([], cs)
read_line (suc n) [] = ([], [])
read_line (suc n) (c ∷ cs) =
    let (line, rest) = read_line n cs in if c == 10 then (c ∷ [], cs) else (c ∷ line, rest)

-- `LBSZ`.
abbrev pub lbsz : ℕ
lbsz = 40

-- `fgets(buf,LBSZ,stdin)`: at the end of the input `buf` stays as it is.
unfoldable pub fgets : (buf : List ℕ) → List ℕ → List ℕ × List ℕ
unfolding read_line
fgets buf [] = (buf, [])
fgets buf (c ∷ cs) = read_line (lbsz - 1) (c ∷ cs)

-- The first character of a text, or its closing NUL.
abbrev pub first : List ℕ → ℕ
first [] = 0
first (c ∷ _) = c

-- `strlen(buf) && '.'!=buf[0]` does not hold.
abbrev pub is_last : List ℕ → Bool
is_last buf = first buf == 0 || first buf == 46

-- `size` is `w` or, where `mm` goes backwards, `-w`.
abbrev pub advance : (backwards : Bool) → (address w : ℕ) → ℕ
advance backwards address w = if backwards then u32 (address + 2 ^ 32 - w) else u32 (address + w)

-- The text `buf` where it is no number: the direction and the address.
unfoldable pub command : (buf : List ℕ) → (backwards : Bool) → (address w : ℕ) → Bool × ℕ
command buf backwards address w =
    let c = to_upper (first buf) in
    if c == 94
    then (true, advance true address w)
    else if c == 86
    then (false, advance false address w)
    else if c == 10 || c == 13
    then (backwards, advance backwards address w)
    else (backwards, address)

-- A text that was read: what is stored, the direction and the address. `strtoul` gives the number that a
-- text starts with.
unfoldable pub obey :
    (strtoul : List ℕ → Option ℕ)
    → (buf : List ℕ) → (backwards : Bool) → (address w : ℕ) → List Event × Bool × ℕ
obey strtoul buf backwards address w = elim (strtoul buf) [
  | some v ↦ (stored address w (v % 256 ^ w) ∷ [], backwards, advance backwards address w)
  | none ↦ let (b, a) = command buf backwards address w in ([], b, a)
]

-- The loop, in `k` turns at most; `none` is the end of that bound. The events and the input left.
unfoldable pub mm_loop :
    (strtoul : List ℕ → Option ℕ)
    → (k : ℕ) → (buf input : List ℕ) → (backwards : Bool) → (address w : ℕ)
    → Option (List Event × List ℕ)
mm_loop strtoul zero buf input backwards address w = none
mm_loop strtoul (suc k) buf input backwards address w =
    let (line, rest) = fgets buf input in
    let (es, b, a) = obey strtoul line backwards address w in
    let done = shown address w ∷ es in
    if is_last line then some (done, rest) else elim (mm_loop strtoul k line rest b a w) [
      | none ↦ none
      | some (fs, left) ↦ some (done ++ fs, left)
    ]

-- `mm`, whose buffer has some text at the start; it returns 0.
unfoldable pub mm :
    (strtoul : List ℕ → Option ℕ)
    → (k : ℕ) → (buf input : List ℕ) → (address size : ℕ) → Option (List Event × List ℕ)
unfolding mm_loop
mm strtoul k buf input address size = mm_loop strtoul k buf input false address (word_size size)
