-- ===== src/MemUtils/Modify/Values.antt =====
-- What `mm` of miscUtils/memUtils.c stores.
use rtems_ssrl_apps.Prelude.{
  ℕ, suc, ◌%◌, ◌^◌, ◌≡◌, refl, Bool, true, false, Option, none, some, List, [], ◌∷◌, ◌++◌, length,
  arith,
}
use rtems_ssrl_apps.MemUtils.{word_size}
use rtems_ssrl_apps.MemUtils.Modify.{
  Event, shown, stored, is_last, advance, command, obey, mm_loop, mm,
}
use rtems_ssrl_apps.MemUtils.Modify.Stop.{IsLine, with_newline, fgets-line}

-- The lines of one step of `mm`: a number, a reversal of the direction, or a bare newline.
pub data Entry : Type 0 where
  number : (line : List ℕ) → (value : ℕ) → Entry
  back : Entry
  forth : Entry
  skip : Entry

abbrev pub line_of : Entry → List ℕ
line_of (number l v) = l
line_of back = 94 ∷ []
line_of forth = 118 ∷ []
line_of skip = []

-- What the entries show and store, from an address on, up to the dot.
abbrev pub outcome : List Entry → (backwards : Bool) → (address w : ℕ) → List Event
outcome [] b a w = shown a w ∷ []
outcome (number l v ∷ es) b a w =
    shown a w ∷ stored a w (v % 256 ^ w) ∷ outcome es b (advance b a w) w
outcome (back ∷ es) b a w = shown a w ∷ outcome es true (advance true a w) w
outcome (forth ∷ es) b a w = shown a w ∷ outcome es false (advance false a w) w
outcome (skip ∷ es) b a w = shown a w ∷ outcome es b (advance b a w) w

-- The dot that ends the entries.
abbrev pub dot : List ℕ
dot = 46 ∷ []

module _ (strtoul : List ℕ → Option ℕ) where
  -- `strtoul` reads an entry as what it is; a number does not start with a dot.
  abbrev pub IsEntry : Entry → Type 0
  IsEntry (number l v) =
      IsLine l × (strtoul (with_newline l) ≡ some v) × (is_last (with_newline l) ≡ false)
  IsEntry e = strtoul (with_newline (line_of e)) ≡ none

  abbrev pub AllEntries : List Entry → Type 0
  AllEntries [] = strtoul (with_newline dot) ≡ none
  AllEntries (e ∷ es) = IsEntry e × AllEntries es

  abbrev pub input_of : List Entry → (rest : List ℕ) → List ℕ
  input_of [] rest = dot ++ 10 ∷ rest
  input_of (e ∷ es) rest = line_of e ++ 10 ∷ input_of es rest

  mm_loop-more :
      (k : ℕ) (buf l cs : List ℕ) (b : Bool) (a w : ℕ) {es : List Event} {b' : Bool} {a' : ℕ}
      {r : List Event × List ℕ}
      → IsLine l
      → is_last (with_newline l) ≡ false
      → obey strtoul (with_newline l) b a w ≡ (es, b', a')
      → mm_loop strtoul k (with_newline l) cs b' a' w ≡ some r
      → mm_loop strtoul (suc k) buf (l ++ 10 ∷ cs) b a w ≡ some (shown a w ∷ es ++ r.0, r.1)
  unfolding mm_loop
  mm_loop-more k buf l cs b a w g x e q =
      let f = fgets-line buf l cs g in rw (f, x, e, q, f, e, mm_loop) refl

  obey-number :
      (buf : List ℕ) (b : Bool) (a w : ℕ) {v : ℕ}
      → strtoul buf ≡ some v
      → obey strtoul buf b a w ≡ (stored a w (v % 256 ^ w) ∷ [], b, advance b a w)
  unfolding obey
  obey-number buf b a w e = rw (e, obey) refl

  obey-command :
      (buf : List ℕ) (b : Bool) (a w : ℕ) {m : Bool × ℕ}
      → strtoul buf ≡ none
      → command buf b a w ≡ m
      → obey strtoul buf b a w ≡ ([], m.0, m.1)
  unfolding obey
  obey-command buf b a w e f = rw (e, f, obey) refl

  mm_loop-outcome :
      (es : List Entry) (buf rest : List ℕ) (b : Bool) (a w : ℕ)
      → AllEntries es
      → mm_loop strtoul (suc (length es)) buf (input_of es rest) b a w
        ≡ some (outcome es b a w, rest)
  unfolding mm_loop command
  mm_loop-outcome [] buf rest b a w g =
      let f = fgets-line buf dot rest (ground arith) in
      let e = obey-command (with_newline dot) b a w g refl in rw (f, e, mm_loop) refl
  mm_loop-outcome (number l v ∷ es) buf rest b a w (g, gs) =
      mm_loop-more (suc (length es)) buf l (input_of es rest) b a w g.0 g.2
        (obey-number (with_newline l) b a w g.1)
        (mm_loop-outcome es (with_newline l) rest b (advance b a w) w gs)
  mm_loop-outcome (back ∷ es) buf rest b a w (g, gs) =
      mm_loop-more (suc (length es)) buf (line_of back) (input_of es rest) b a w (ground arith) refl
        (obey-command (with_newline (line_of back)) b a w g refl)
        (mm_loop-outcome es (with_newline (line_of back)) rest true (advance true a w) w gs)
  mm_loop-outcome (forth ∷ es) buf rest b a w (g, gs) =
      mm_loop-more (suc (length es)) buf (line_of forth) (input_of es rest) b a w (ground arith)
        refl (obey-command (with_newline (line_of forth)) b a w g refl)
        (mm_loop-outcome es (with_newline (line_of forth)) rest false (advance false a w) w gs)
  mm_loop-outcome (skip ∷ es) buf rest b a w (g, gs) =
      mm_loop-more (suc (length es)) buf [] (input_of es rest) b a w (ground arith) refl
        (obey-command (with_newline []) b a w g refl)
        (mm_loop-outcome es (with_newline []) rest b (advance b a w) w gs)

  -- Of entries that `strtoul` reads as what they are, with a dot behind them, `mm` stores each number at
  -- the address that the entries before it have led to, and nothing else; it shows the value at each
  -- address that it comes to, ends, and leaves the input behind the dot.
  pub mm-outcome :
      (es : List Entry) (buf rest : List ℕ) (address size : ℕ)
      → AllEntries es
      → mm strtoul (suc (length es)) buf (input_of es rest) address size
        ≡ some (outcome es false address (word_size size), rest)
  unfolding mm
  mm-outcome es buf rest address size g =
      mm_loop-outcome es buf rest false address (word_size size) g
