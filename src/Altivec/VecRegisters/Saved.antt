-- ===== src/Altivec/VecRegisters/Saved.antt =====
-- A context that is saved is loaded again, and saving it stays within its buffer.
use rtems_ssrl_apps.Prelude.{
  ℕ, ◌≡◌, ◌≤◌, ◌*◌, ◌/◌, if◌then◌else◌, false, ◌∙◌, ◌+◌, refl, ap, Bool, true, List, [], ◌∷◌, ltb,
  ◌==◌, Bool-cases, inl, inr, arith, ◌&&◌,
}
use rtems_ssrl_apps.Altivec.VecRegisters.{
  Vec, Processor, Instr, Gpr, r0, r4, r5, write, piece, gpr, set_gpr, zero_vec, execute, run, s4vec,
  l4vec, z4vec, p4vec, l4veca, s4vec_p, s8vec_p, l8veca, s32vec, l32vec, save_code, load_code,
  save_vec_context, load_vec_context, contents, saved_contents, mfvrsave, mtvrsave, li, addi, dcbz,
  stvxl, lvxl, mfvscr, mtvscr, stw_first, lwz_first, stvewx_third, lvewx_third,
}

-- `save_vec_context` leaves in the buffer what programs see of the vector unit.
pub save_contents : (c : Processor) → saved_contents (save_vec_context c).buffer ≡ contents c.unit
unfolding execute run s4vec z4vec p4vec s4vec_p s8vec_p s32vec save_code save_vec_context contents
    saved_contents
save_contents c = refl

-- `load_vec_context` sets all of the vector unit that programs see from the buffer.
pub load_contents : (c : Processor) → contents (load_vec_context c).unit ≡ saved_contents c.buffer
unfolding execute run l4vec l4veca l8veca l32vec load_code load_vec_context contents saved_contents
load_contents c = refl

pub save_bptr : (c : Processor) → ((save_vec_context c).buffer 0).w1 ≡ (c.buffer 0).w1
unfolding execute run s4vec z4vec p4vec s4vec_p s8vec_p s32vec save_code save_vec_context
save_bptr c = refl

pub load_buffer : (c : Processor) → (load_vec_context c).buffer ≡ c.buffer
unfolding execute run l4vec l4veca l8veca l32vec load_code load_vec_context
load_buffer c = refl

abbrev pub outside : ℕ → List ℕ → Bool
outside g [] = true
outside g (x ∷ xs) = if g == x then false else outside g xs

abbrev all_below : ℕ → List ℕ → Bool
all_below n [] = true
all_below n (x ∷ xs) = ltb x n && all_below n xs

all_below-outside : (n g : ℕ) (xs : List ℕ) → n ≤ g → all_below n xs ≡ true → outside g xs ≡ true
all_below-outside n g [] l a = refl
all_below-outside n g (x ∷ xs) l a = elim (Bool-cases (ltb x n)) [
  | inl e ↦
      let r : all_below n xs ≡ true = ground arith in
      let d : (g == x) ≡ false = ground arith in rw d (all_below-outside n g xs l r)
  | inr e ↦ ground arith
]

-- Memory at `g` is as it was if `g` has not been written.
record Kept (g : ℕ) (c d : Processor) : Type 0 where
  earlier : outside g c.written ≡ true
  same : d.buffer g ≡ c.buffer g

write-Kept :
    (h : ℕ) (v : Vec) (c : Processor) (g : ℕ)
    → outside g (write h v c).written ≡ true
    → Kept g c (write h v c)
write-Kept h v c g o = elim (Bool-cases (g == h)) [ inl e ↦ ground arith | inr e ↦ ground arith ]

Kept-trans : {g : ℕ} {c d : Processor} (e : Processor) → Kept g c d → Kept g d e → Kept g c e
Kept-trans e p q = record { earlier = p.earlier; same = q.same ∙ p.same }

set_gpr-Kept :
    (r : Gpr) (n : ℕ) (c : Processor) (g : ℕ)
    → outside g (set_gpr r n c).written ≡ true
    → Kept g c (set_gpr r n c)
set_gpr-Kept r0 n c g o = record { earlier = o; same = refl }
set_gpr-Kept r4 n c g o = record { earlier = o; same = refl }
set_gpr-Kept r5 n c g o = record { earlier = o; same = refl }

execute-Kept :
    (x : Instr) (c : Processor) (g : ℕ)
    → outside g (execute x c).written ≡ true
    → Kept g c (execute x c)
unfolding execute
execute-Kept (mfvrsave r) c g o = set_gpr-Kept r c.unit.vrsave c g o
execute-Kept (mtvrsave r) c g o = record { earlier = o; same = refl }
execute-Kept (li r n) c g o = set_gpr-Kept r n c g o
execute-Kept (addi to from n) c g o = set_gpr-Kept to (gpr c from + n) c g o
execute-Kept (dcbz b r) c g o =
    let line = (16 * b + gpr c r) / 32 * 2 in
    let p = write-Kept (line + 1) zero_vec (write line zero_vec c) g o in
    Kept-trans (write (line + 1) zero_vec (write line zero_vec c))
      (write-Kept line zero_vec c g p.earlier) p
execute-Kept (stvxl i b r) c g o = write-Kept (piece b r c) (c.unit.vr i) c g o
execute-Kept (lvxl i b r) c g o = record { earlier = o; same = refl }
execute-Kept mfvscr c g o = record { earlier = o; same = refl }
execute-Kept mtvscr c g o = record { earlier = o; same = refl }
execute-Kept (stw_first r) c g o = write-Kept 0 (record (c.buffer 0) { w0 = gpr c r }) c g o
execute-Kept (lwz_first r) c g o = set_gpr-Kept r (c.buffer 0).w0 c g o
execute-Kept (stvewx_third r) c g o =
    write-Kept (piece 0 r c) (record (c.buffer (piece 0 r c)) { w3 = (c.unit.vr 0).w3 }) c g o
execute-Kept (lvewx_third r) c g o = record { earlier = o; same = refl }

run-Kept :
    (xs : List Instr) (c : Processor) (g : ℕ)
    → outside g (run xs c).written ≡ true
    → Kept g c (run xs c)
unfolding run
run-Kept [] c g o = record { earlier = o; same = refl }
run-Kept (x ∷ xs) c g o =
    let p = run-Kept xs (execute x c) g o in
    Kept-trans (run xs (execute x c)) (execute-Kept x c g p.earlier) p

save_written : (c : Processor) → c.written ≡ [] → all_below 34 (save_vec_context c).written ≡ true
unfolding execute run s4vec z4vec p4vec s4vec_p s8vec_p s32vec save_code save_vec_context
save_written c e = rw e refl

-- What `save_vec_context` leaves of a context, and keeps of its buffer.
pub record IsSaved (c d : Processor) : Type 0 where
  pub saved : saved_contents d.buffer ≡ contents c.unit
  pub bptr : (d.buffer 0).w1 ≡ (c.buffer 0).w1
  pub bounds : (g : ℕ) → 34 ≤ g → d.buffer g ≡ c.buffer g

-- `save_vec_context` stores VRSAVE, VSCR and the 32 registers; it keeps BPTR, and writes nothing behind
-- the 34 vectors of the buffer, its `dcbz` included.
pub save_vec_context-IsSaved : (c : Processor) → c.written ≡ [] → IsSaved c (save_vec_context c)
unfolding save_vec_context
save_vec_context-IsSaved c e = record {
  saved = save_contents c;
  bptr = save_bptr c;
  bounds = λ g l.
      (run-Kept save_code c g
        (all_below-outside 34 g (save_vec_context c).written l (save_written c e))).same;
}

-- Whatever the unit `w` and the general registers hold then, `load_vec_context` sets the unit to what
-- `save_vec_context` has saved of it: VRSAVE, VSCR and each of the 32 registers.
pub load_vec_context-save :
    (c d : Processor)
    → d.buffer ≡ (save_vec_context c).buffer
    → contents (load_vec_context d).unit ≡ contents c.unit
load_vec_context-save c d e = load_contents d ∙ ap saved_contents e ∙ save_contents c
