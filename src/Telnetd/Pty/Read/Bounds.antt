-- ===== src/Telnetd/Pty/Read/Bounds.antt =====
-- The bounds that `read_pty` keeps, whatever the client sends.
use rtems_ssrl_apps.Prelude.{
  ℕ, zero, suc, ◌%◌, ◌≤◌, ◌<◌, ◌≡◌, ◌⊎◌, List, [], ◌∷◌, arith, length, get_or, set, length-set,
  ◌==◌, if◌then◌else◌,
}
use rtems_ssrl_apps.Telnetd.Pty.Slot.{Pty, sb_max}
use rtems_ssrl_apps.Telnetd.Pty.Read.{handle_sb, after_esc, in_sb, plain, read_byte, Result}
use rtems_ssrl_apps.Telnetd.Pty.Read.Stream.{final}

abbrev pub AllBytes : List ℕ → Type 0
AllBytes [] = Unit {0}
AllBytes (x ∷ xs) = (x < 256) × AllBytes xs

pub get_or-lt : (xs : List ℕ) (i : ℕ) → AllBytes xs → get_or xs i 0 < 256
get_or-lt [] i h = omega arith
get_or-lt (x ∷ xs) zero h = h.0
get_or-lt (x ∷ xs) (suc i) h = get_or-lt xs i h.1

set-AllBytes : (xs : List ℕ) (i v : ℕ) → v < 256 → AllBytes xs → AllBytes (set xs i v)
set-AllBytes [] i v b h = tt
set-AllBytes (x ∷ xs) zero v b h = (b, h.1)
set-AllBytes (x ∷ xs) (suc i) v b h = (h.0, set-AllBytes xs i v b h.1)

-- The values of `iac_mode`: none, a command, an escape, and an escape in a subnegotiation.
abbrev pub IsMode : ℕ → Type 0
IsMode m = (m ≡ 0) ⊎ ((250 ≤ m) × (m ≤ 255)) ⊎ (m ≡ 64255)

pub record IsSound (p : Pty) : Type 0 where
  pub mode : IsMode p.iac_mode
  pub ind : p.sb_ind ≤ sb_max
  pub size : length p.sb_buf ≡ sb_max
  pub stored : AllBytes p.sb_buf
  pub width_lt : p.width < 65536
  pub height_lt : p.height < 65536

handle_sb-IsSound : (p : Pty) → IsSound p → IsSound (handle_sb p)
unfolding handle_sb
handle_sb-IsSound p h = ground (
  arith,
  get_or-lt p.sb_buf 1 h.stored,
  get_or-lt p.sb_buf 2 h.stored,
  get_or-lt p.sb_buf 3 h.stored,
  get_or-lt p.sb_buf 4 h.stored,
)

after_esc-IsSound :
    (omod value : ℕ) (p : Pty)
    → IsMode omod
    → omod % 256 ≡ 255
    → IsSound p
    → IsSound (after_esc omod value p).pty
unfolding after_esc
after_esc-IsSound omod value p m e h = ground (arith, handle_sb-IsSound p h)

in_sb-IsSound :
    (omod value : ℕ) (p : Pty)
    → omod ≡ 250
    → value < 256
    → IsSound p
    → IsSound (in_sb omod value p).pty
unfolding in_sb
in_sb-IsSound omod value p m b h =
    ground
      (arith, set-AllBytes p.sb_buf p.sb_ind value b h.stored, length-set p.sb_buf p.sb_ind value)

sb_mode : (m : ℕ) → IsMode m → m % 256 ≡ 250 → m ≡ 250
sb_mode m h e = ground arith

plain-IsSound : (value : ℕ) (p : Pty) → value < 256 → IsSound p → IsSound (plain value p).pty
unfolding plain
plain-IsSound value p b h = ground arith

cleared-IsSound : (p : Pty) → IsSound p → IsSound (record p { iac_mode = 0 })
cleared-IsSound p h = ground arith

if-IsSound :
    (m n : ℕ) (r s : Result)
    → (m ≡ n → IsSound r.pty)
    → IsSound s.pty
    → IsSound (if m == n then r else s).pty
if-IsSound m n r s h k = ground arith

-- Each byte keeps the slot sound.
pub read_byte-IsSound :
    (value : ℕ) (p : Pty) → value < 256 → IsSound p → IsSound (read_byte value p).pty
unfolding read_byte
read_byte-IsSound value p b h =
    let q = record p { iac_mode = 0 } in
    let c = cleared-IsSound p h in
    let m = p.iac_mode % 256 in
    if-IsSound m 255 _ _ (λ e. after_esc-IsSound p.iac_mode value q h.mode e c)
      (if-IsSound m 250 _ _
        (λ e. in_sb-IsSound p.iac_mode value q (sb_mode p.iac_mode h.mode e) b c)
        (if-IsSound m 251 _ _ (λ _. c)
          (if-IsSound m 254 _ _ (λ _. c)
            (if-IsSound m 253 _ _ (λ _. c)
              (if-IsSound m 252 _ _ (λ _. c) (plain-IsSound value q b c))))))

-- From a sound slot, any stream of bytes leaves a sound slot: the subnegotiation index stays within
-- the buffer, the buffer keeps its size, the mode stays one of the seven shapes of the protocol
-- and the window sizes stay 16-bit numbers.
pub final-IsSound : (vs : List ℕ) (p : Pty) → AllBytes vs → IsSound p → IsSound (final vs p)
unfolding final
final-IsSound [] p b h = h
final-IsSound (v ∷ vs) p b h =
    final-IsSound vs (read_byte v p).pty b.1 (read_byte-IsSound v p b.0 h)
