-- ===== src/Altivec/VecRegisters.antt =====
-- altivec/vec_context.c, the assembly: `save_vec_context` and `load_vec_context`, with the macros that
-- they are put together from, as lists of instructions, and these instructions.
-- As in the file, `IGNORE_VRSAVE` is defined. The buffer of a context starts on a cache line, so that
-- addresses are relative to it; memory is in pieces of 16 bytes, the size of a vector.
pub mod Saved
use rtems_ssrl_apps.Prelude.{
  ℕ, zero, suc, ◌+◌, ◌*◌, ◌/◌, ◌%◌, ◌^◌, Bool, List, [], ◌∷◌, ◌++◌, ◌==◌, if◌then◌else◌, map,
}

-- `Vec`, four words of 32 bits.
pub record Vec : Type 0 where
  pub w0 : ℕ
  pub w1 : ℕ
  pub w2 : ℕ
  pub w3 : ℕ

abbrev pub zero_vec : Vec
zero_vec = record { w0 = 0; w1 = 0; w2 = 0; w3 = 0 }

-- A buffer: the first `Vec` holds VRSAVE, BPTR and VSCR, the next is unused, and the registers follow.
abbrev pub Buffer : Type 0
Buffer = ℕ → Vec

abbrev pub upto_from : ℕ → ℕ → List ℕ
upto_from i zero = []
upto_from i (suc k) = i ∷ upto_from (i + 1) k

-- 0, 1, ..., k - 1.
abbrev pub upto : ℕ → List ℕ
upto k = upto_from 0 k

-- The vector unit: VRSAVE, VSCR and the vector registers.
pub record VectorUnit : Type 0 where
  pub vrsave : ℕ
  pub vscr : ℕ
  pub vr : ℕ → Vec

-- The general registers that the assembly uses.
pub data Gpr : Type 0 where
  r0 : Gpr
  r4 : Gpr
  r5 : Gpr

pub record Processor : Type 0 where
  pub g0 : ℕ
  pub g4 : ℕ
  pub g5 : ℕ
  pub unit : VectorUnit
  pub buffer : Buffer
  -- The pieces of memory that have been written.
  pub written : List ℕ

abbrev pub gpr : Processor → Gpr → ℕ
gpr c r0 = c.g0
gpr c r4 = c.g4
gpr c r5 = c.g5

abbrev pub set_gpr : Gpr → ℕ → Processor → Processor
set_gpr r0 n c = record c { g0 = n }
set_gpr r4 n c = record c { g4 = n }
set_gpr r5 n c = record c { g5 = n }

abbrev pub set_vr : ℕ → Vec → Processor → Processor
set_vr i v c = record c { unit = record c.unit { vr = λ j. if j == i then v else c.unit.vr j } }

abbrev pub write : ℕ → Vec → Processor → Processor
write g v c = record c { buffer = λ h. if h == g then v else c.buffer h; written = g ∷ c.written }

-- The instructions. The operand `b` stands for the operand of the assembly that holds `*buf + b`, the
-- address of the `b`-th `Vec`; offsets are in bytes. `mfvscr` and `mtvscr` use vector register 0.
pub data Instr : Type 0 where
  mfvrsave : Gpr → Instr
  mtvrsave : Gpr → Instr
  li : Gpr → ℕ → Instr
  addi : (to from : Gpr) → ℕ → Instr
  dcbz : (b : ℕ) → Gpr → Instr
  stvxl : (i b : ℕ) → Gpr → Instr
  lvxl : (i b : ℕ) → Gpr → Instr
  mfvscr : Instr
  mtvscr : Instr
  stw_first : Gpr → Instr
  lwz_first : Gpr → Instr
  stvewx_third : Gpr → Instr
  lvewx_third : Gpr → Instr

-- The piece of memory of an address.
abbrev pub piece : ℕ → Gpr → Processor → ℕ
piece b r c = (16 * b + gpr c r) / 16

-- One instruction. `dcbz` zeroes a cache line, two pieces. `stvewx` and `lvewx` move the word of the
-- register that stands at the address within its piece; the code's address is 12, the last word.
unfoldable pub execute : Instr → Processor → Processor
execute (mfvrsave r) c = set_gpr r c.unit.vrsave c
execute (mtvrsave r) c = record c { unit = record c.unit { vrsave = gpr c r } }
execute (li r n) c = set_gpr r n c
execute (addi to from n) c = set_gpr to (gpr c from + n) c
execute (dcbz b r) c =
    let line = (16 * b + gpr c r) / 32 * 2 in write (line + 1) zero_vec (write line zero_vec c)
execute (stvxl i b r) c = write (piece b r c) (c.unit.vr i) c
execute (lvxl i b r) c = set_vr i (c.buffer (piece b r c)) c
execute mfvscr c = set_vr 0 (record { w0 = 0; w1 = 0; w2 = 0; w3 = c.unit.vscr }) c
execute mtvscr c = record c { unit = record c.unit { vscr = (c.unit.vr 0).w3 } }
execute (stw_first r) c = write 0 (record (c.buffer 0) { w0 = gpr c r }) c
execute (lwz_first r) c = set_gpr r (c.buffer 0).w0 c
execute (stvewx_third r) c =
    let g = piece 0 r c in write g (record (c.buffer g) { w3 = (c.unit.vr 0).w3 }) c
execute (lvewx_third r) c = set_vr 0 (record (c.unit.vr 0) { w3 = (c.buffer (piece 0 r c)).w3 }) c

unfoldable pub run : List Instr → Processor → Processor
run [] c = c
run (x ∷ xs) c = run xs (execute x c)

-- The macros, on the bases `*buf + 0` to `*buf + 3`; `VRTST` is empty.
abbrev pub stvx : ℕ → ℕ → Gpr → List Instr
stvx i b o = stvxl i b o ∷ []

abbrev pub ldvx : ℕ → ℕ → Gpr → List Instr
ldvx i b o = lvxl i b o ∷ []

unfoldable pub s4vec : ℕ → Gpr → List Instr
s4vec i ro = stvx i 0 ro ++ stvx (i + 1) 1 ro ++ stvx (i + 2) 2 ro ++ stvx (i + 3) 3 ro

unfoldable pub l4vec : ℕ → Gpr → List Instr
l4vec i ro = ldvx i 0 ro ++ ldvx (i + 1) 1 ro ++ ldvx (i + 2) 2 ro ++ ldvx (i + 3) 3 ro

unfoldable pub z4vec : Gpr → List Instr
z4vec ro = dcbz 0 ro ∷ dcbz 2 ro ∷ []

unfoldable pub p4vec : (ri rj : Gpr) → List Instr
p4vec ri rj = addi rj ri 64 ∷ z4vec rj

unfoldable pub l4veca : ℕ → Gpr → List Instr
l4veca i ro = l4vec i ro ++ (addi ro ro 64 ∷ [])

unfoldable pub s4vec_p : ℕ → (ri rj : Gpr) → List Instr
s4vec_p i ri rj = p4vec ri rj ++ s4vec i ri

unfoldable pub s8vec_p : ℕ → (ri rj : Gpr) → List Instr
s8vec_p i ri rj = s4vec_p i ri rj ++ s4vec_p (i + 4) rj ri

unfoldable pub l8veca : ℕ → Gpr → List Instr
l8veca i ro = l4veca i ro ++ l4veca (i + 4) ro

unfoldable pub s32vec : (ri rj : Gpr) → List Instr
s32vec ri rj =
    s8vec_p 0 ri rj ++ s8vec_p 8 ri rj ++ s8vec_p 16 ri rj ++ s4vec_p 24 ri rj ++ s4vec 28 rj

unfoldable pub l32vec : Gpr → List Instr
l32vec ro = l8veca 0 ro ++ l8veca 8 ro ++ l8veca 16 ro ++ l4veca 24 ro ++ l4vec 28 ro

-- `asm volatile` of the two functions; `dcbt`, a hint to the cache, is left out.
unfoldable pub save_code : List Instr
save_code =
    (mfvrsave r0 ∷ li r5 32 ∷ dcbz 0 r5 ∷ dcbz 2 r5 ∷ [])
    ++ s32vec r5 r4
    ++ (mfvscr ∷ stw_first r0 ∷ li r5 12 ∷ stvewx_third r5 ∷ [])

unfoldable pub load_code : List Instr
load_code =
    (lwz_first r4 ∷ mtvrsave r4 ∷ li r4 12 ∷ lvewx_third r4 ∷ mtvscr ∷ addi r4 r4 20 ∷ [])
    ++ l32vec r4

-- The two functions.
unfoldable pub save_vec_context : Processor → Processor
save_vec_context c = run save_code c

unfoldable pub load_vec_context : Processor → Processor
load_vec_context c = run load_code c

-- What programs see of the vector unit, and what a buffer holds of it.
pub record Contents : Type 0 where
  pub vrsave : ℕ
  pub vscr : ℕ
  pub vectors : List Vec

unfoldable pub contents : VectorUnit → Contents
contents u = record { vrsave = u.vrsave; vscr = u.vscr; vectors = map u.vr (upto 32) }

unfoldable pub saved_contents : Buffer → Contents
saved_contents m = record {
  vrsave = (m 0).w0;
  vscr = (m 0).w3;
  vectors = map (λ i. m (i + 2)) (upto 32);
}
