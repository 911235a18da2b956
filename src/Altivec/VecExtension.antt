-- ===== src/Altivec/VecExtension.antt =====
-- altivec/vec_context.c, how the extension is installed and removed, with altivec/ppc_stack_probe.c; and
-- the dummies that stand in its place where RTEMS itself saves the vector unit (`HAVE_NATIVE_ALTIVEC`).
pub mod Lifetime
use rtems_ssrl_apps.Prelude.{
  ℕ, ◌+◌, ◌-◌, ◌*◌, ◌/◌, ◌%◌, ◌^◌, bit_or, Bool, true, false, not, ◌&&◌, Option, none, some, ◌==◌,
  ltb, if◌then◌else◌,
}
use rtems_ssrl_apps.Prelude.Int.{ℤ, pos, negsuc}
use rtems_ssrl_apps.Altivec.VecContext.{Machine, disable_dispatch, enable_dispatch}

-- `vec_extension_id`, 0 if there is none, and `vec_idx`.
pub record Extension : Type 0 where
  pub id : ℕ
  pub idx : ℕ

-- What the code asks the machine and the kernel: the alignment that the CPU support declares, the stack
-- pointers of a function and of one that it calls, whether the CPU has AltiVec, the identifier of a new
-- extension if one can be created, and the index of an identifier.
pub record Platform : Type 0 where
  pub stack_alignment : ℕ
  pub r1 : ℕ
  pub callee_r1 : ℕ
  pub has_altivec : Bool
  pub created : Option ℕ
  pub get_index : ℕ → ℕ

-- `ERRID('V','E','C','1')` and its like.
abbrev pub err_id : ℕ → ℕ → ℕ → ℕ → ℕ
err_id a b c d = bit_or (bit_or (bit_or (a * 2 ^ 24) (b * 2 ^ 16)) (c * 2 ^ 8)) d

pub data Installed : Type 0 where
  returns_code : ℤ → Installed
  fatal_error : ℕ → Installed

-- `(r1 - probe_r1()) & ~0xf`, on unsigned numbers of 32 bits.
unfoldable pub probe_ppc_stack_alignment : Platform → ℕ
probe_ppc_stack_alignment w = (w.r1 + 2 ^ 32 - w.callee_r1) % 2 ^ 32 / 16 * 16

unfoldable pub check_stack_alignment : Platform → ℕ
check_stack_alignment w =
    let declared = if ltb w.stack_alignment 16 then 1 else 0 in
    if ltb (probe_ppc_stack_alignment w) 16 then bit_or declared 2 else declared

abbrev pub vrsave_init_val : ℕ
vrsave_init_val = 2 ^ 32 - 1

unfoldable pub check_vrsave : ℤ
check_vrsave = negsuc 0

-- Behind the checks. A failing `rtems_extension_create` sets no identifier.
unfoldable pub create_extension : Platform → Extension → Installed × Extension
create_extension w x = elim w.created [
  | none ↦ (returns_code (negsuc 0), x)
  | some id ↦ (returns_code (pos 0), record { id = id; idx = w.get_index id })
]

-- `vec_install_extension`, as RTEMS from 4.8.99 on has it.
unfoldable pub vec_install_extension : Platform → Extension → Installed × Extension
vec_install_extension w x =
    if not (x.id == 0)
    then (returns_code (negsuc 0), x)
    else if not (vrsave_init_val == 2 ^ 32 - 1)
    then (fatal_error (err_id 86 69 67 48), x)
    else if check_stack_alignment w / 2 % 2 == 1
    then (fatal_error (err_id 86 69 67 49), x)
    else if not w.has_altivec
    then (returns_code (negsuc 0), x)
    else create_extension w x

-- `_cexpModuleFinalize`; `deletes` tells whether `rtems_extension_delete` succeeds.
unfoldable pub remove_extension : (ℕ → Bool) → Machine → Extension → ℤ × Machine × Extension
remove_extension deletes s x =
    let cleared = record x { id = 0 } in
    let t = enable_dispatch (disable_dispatch s) in
    if x.id == 0
    then (pos 0, t, cleared)
    else if deletes x.id
    then (pos 0, t, cleared)
    else (negsuc 0, t, record cleared { id = x.id })

unfoldable pub finalize : (ℕ → Bool) → Machine → Extension → ℤ × Machine × Extension
finalize deletes s x = elim s.vec_owner [
  | some o ↦ (negsuc 0, enable_dispatch (disable_dispatch s), x)
  | none ↦ remove_extension deletes s x
]

-- The dummies.
unfoldable pub dummy_task_enable : ℤ
dummy_task_enable = pos 0

unfoldable pub dummy_install_extension : (msr_ve has_altivec : Bool) → ℤ
dummy_install_extension msr_ve has_altivec =
    if not msr_ve then negsuc 0 else if not has_altivec then negsuc 0 else pos 0
