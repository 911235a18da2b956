-- ===== src/Altivec/VecExtension/Lifetime.antt =====
-- The extension of altivec/vec_context.c from its installation to its removal.
use rtems_ssrl_apps.Prelude.{
  ℕ, ◌+◌, ◌-◌, ◌*◌, ◌/◌, ◌%◌, ◌^◌, ◌≡◌, ◌≤◌, refl, ◌∙◌, Bool, true, false, none, some, ◌==◌, ltb,
  if◌then◌else◌, arith, Bool-cases, inl, inr,
}
use rtems_ssrl_apps.Prelude.Int.{pos, negsuc}
use rtems_ssrl_apps.Altivec.VecContext.{Machine, vec_thread_delete}
use rtems_ssrl_apps.Altivec.VecContext.Tasks.{System, removing, ve, tasks}
use rtems_ssrl_apps.Altivec.VecContext.Removal.{vec_thread_delete-IsRemoved, removed_tasks}
use rtems_ssrl_apps.Altivec.VecContext.Isolation.{Reach, step, Reach-Owned}
use rtems_ssrl_apps.Altivec.VecExtension.{
  Extension, Platform, returns_code, probe_ppc_stack_alignment, check_stack_alignment,
  create_extension, vec_install_extension, remove_extension, finalize,
}

-- What can be installed: nothing yet, frames of 16 bytes at least, a CPU with AltiVec.
pub record Installs (w : Platform) (x : Extension) : Type 0 where
  pub none_yet : x.id ≡ 0
  pub frame : 16 ≤ (w.r1 + 2 ^ 32 - w.callee_r1) % 2 ^ 32
  pub altivec : w.has_altivec ≡ true

check_frame :
    (w : Platform)
    → 16 ≤ (w.r1 + 2 ^ 32 - w.callee_r1) % 2 ^ 32
    → (check_stack_alignment w / 2 % 2 == 1) ≡ false
unfolding check_stack_alignment probe_ppc_stack_alignment
check_frame w f =
    let e : ltb ((w.r1 + 2 ^ 32 - w.callee_r1) % 2 ^ 32 / 16 * 16) 16 ≡ false = ground arith in
    elim (Bool-cases (ltb w.stack_alignment 16)) [ inl d ↦ rw (e, d) refl | inr d ↦ rw (e, d) refl ]

install_lem :
    (w : Platform) (x : Extension) (id : ℕ)
    → Installs w x
    → w.created ≡ some id
    → vec_install_extension w x ≡ (returns_code (pos 0), record { id = id; idx = w.get_index id })
unfolding vec_install_extension create_extension
install_lem w x id i c = rw (i.none_yet, check_frame w i.frame, i.altivec, c) refl

install_again :
    (w : Platform) (x : Extension)
    → (x.id == 0) ≡ false
    → vec_install_extension w x ≡ (returns_code (negsuc 0), x)
unfolding vec_install_extension
install_again w x n = rw n refl

finalize_idle :
    (deletes : ℕ → Bool) (s : Machine) (x : Extension)
    → s.vec_owner ≡ none
    → finalize deletes s x ≡ remove_extension deletes s x
unfolding finalize
finalize_idle deletes s x n = rw n refl

remove_lem :
    (deletes : ℕ → Bool) (s : Machine) (x : Extension)
    → (x.id == 0) ≡ false
    → remove_extension deletes s x
      ≡ (if deletes x.id then (pos 0, s, record x { id = 0 }) else (negsuc 0, s, x))
unfolding remove_extension
remove_lem deletes s x z =
    let e : s.level + 1 - 1 ≡ s.level = omega arith in
    elim (Bool-cases (deletes x.id)) [ inl d ↦ rw (z, d, e) refl | inr d ↦ rw (z, d, e) refl ]

finalize_lem :
    (deletes : ℕ → Bool) (s : Machine) (x : Extension)
    → s.vec_owner ≡ none
    → (x.id == 0) ≡ false
    → finalize deletes s x
      ≡ (if deletes x.id then (pos 0, s, record x { id = 0 }) else (negsuc 0, s, x))
finalize_lem deletes s x n z = finalize_idle deletes s x n ∙ remove_lem deletes s x z

-- Where nothing is installed yet, frames take 16 bytes or more, the CPU has AltiVec and the kernel makes
-- an extension, `vec_install_extension` returns 0 and records its identifier and index; a second
-- call returns -1 and changes nothing; and while no task owns the vector unit, `_cexpModuleFinalize`
-- returns 0 with no identifier left if the kernel deletes the extension, and -1 with the identifier kept
-- if it does not, and leaves the rest of the machine as it is.
pub install-finalize :
    (w : Platform) (x : Extension) (id : ℕ) (deletes : ℕ → Bool) (s : Machine)
    → Installs w x
    → w.created ≡ some id
    → (id == 0) ≡ false
    → s.vec_owner ≡ none
    → let y = (vec_install_extension w x).1 in
      (vec_install_extension w x ≡ (returns_code (pos 0), record { id = id; idx = w.get_index id }))
      × (vec_install_extension w y ≡ (returns_code (negsuc 0), y))
      × (finalize deletes s y ≡ (
          if deletes id
          then (pos 0, s, record { id = 0; idx = w.get_index id })
          else (negsuc 0, s, record { id = id; idx = w.get_index id })))
install-finalize w x id deletes s i c z n =
    let y : Extension = record { id = id; idx = w.get_index id } in
    rw (install_lem w x id i c) (refl, install_again w y z, finalize_lem deletes s y n z)

-- Once the owner of the vector unit is deleted, `_cexpModuleFinalize` returns 0 if the kernel deletes
-- the extension, although another task keeps its context and MSR_VE, with what it sees unchanged.
pub finalize-held :
    (s : System) (x : Extension) (deletes : ℕ → Bool) (t a : ℕ)
    → Reach s
    → s.machine.vec_owner ≡ some t
    → (s.machine.slot a == 0) ≡ false
    → (a == t) ≡ false
    → (x.id == 0) ≡ false
    → deletes x.id ≡ true
    → let r = finalize deletes (vec_thread_delete t s.machine) x in
      (r.0 ≡ pos 0)
      × (r.2.id ≡ 0)
      × ((r.1.slot a == 0) ≡ false)
      × (ve r.1 a ≡ true)
      × (tasks r.1 a ≡ tasks s.machine a)
finalize-held s x deletes t a r o h d z k =
    let machine = s.machine in
    let u = vec_thread_delete t machine in
    let q = vec_thread_delete-IsRemoved machine t in
    let w : (t == t) ≡ true = ground arith in
    let n : u.vec_owner ≡ none = q.owner ∙ rw (o, w) refl in
    let e : finalize deletes u x ≡ (pos 0, u, record x { id = 0 }) =
      finalize_lem deletes u x n z ∙ rw k refl in
    let v : u.slot a ≡ machine.slot a = q.slot a ∙ rw d refl in
    let m = (Reach-Owned (step r (removing t)) a).1 in
    rw e (refl, refl, rw v h, m ∙ rw (v, h) refl, removed_tasks machine u t q a ∙ rw d refl)
