-- ===== src/Telnetd/Connection/Slots.antt =====
-- The free slots of telnetd/pty.c before and after a connection.
use rtems_ssrl_apps.Prelude.{
  ℕ, suc, ◌+◌, ◌≡◌, refl, sym, ap, ◌∙◌, ◌<◌, Bool, false, ◌&&◌, some, List, arith, get_elem?, set,
  if◌then◌else◌,
}
use mathlib.Core.Path.{subst}
use rtems_ssrl_apps.Prelude.Int.{pos, is_neg}
use rtems_ssrl_apps.Telnetd.Passwd.{World}
use rtems_ssrl_apps.Telnetd.Pty.Slot.{Pty, max_ptys}
use rtems_ssrl_apps.Telnetd.Pty.Driver.{Driver, Call, telnet_get_pty}
use rtems_ssrl_apps.Telnetd.Pty.Driver.Claims.{
  Claimed, here, there, Granted, telnet_get_pty-Granted, free_count, free_count-Claimed,
}
use rtems_ssrl_apps.Telnetd.Pty.Driver.Setup.{device_name}
use rtems_ssrl_apps.Telnetd.Pty.Driver.Slots.{IsDriver, IsSlot-at, get_elem?-bound}
use rtems_ssrl_apps.Telnetd.Pty.Driver.Invariant.{Granted-IsDriver}
use rtems_ssrl_apps.Telnetd.Pty.Driver.Release.{free_count-set}
use rtems_ssrl_apps.Telnetd.Daemon.{Event, spawned_shell}
use rtems_ssrl_apps.Telnetd.Connection.{Termios, Use, perform_all}
use rtems_ssrl_apps.Telnetd.Connection.Frees.{spawned_shell-Frees}

-- The slot that was claimed.
record ClaimedAt (n : ℕ) (name : List ℕ) (qs : List Pty) : Type 0 where
  pub minor : ℕ
  pub slot : Pty
  pub at : get_elem? qs minor ≡ some slot
  pub socket : slot.socket ≡ pos n
  pub devname : slot.devname ≡ name

Claimed-ClaimedAt :
    (n : ℕ) {name : List ℕ} {ps qs : List Pty} → Claimed (pos n) name ps qs → ClaimedAt n name qs
Claimed-ClaimedAt n (here {p} e f) = record {
  minor = 0;
  slot = record p { socket = pos n };
  at = refl;
  socket = refl;
  devname = f;
}
Claimed-ClaimedAt n (there e c) =
    let a = Claimed-ClaimedAt n c in
    record { minor = suc a.minor; slot = a.slot; at = a.at; socket = a.socket; devname = a.devname }

free_count-taken :
    (xs : List Pty) (i : ℕ) (q : Pty) {p : Pty} (b : Bool)
    → get_elem? xs i ≡ some p
    → is_neg p.socket ≡ false
    → is_neg q.socket ≡ b
    → free_count (set xs i q) ≡ free_count xs + (if b then 1 else 0)
free_count-taken xs i q {p} b e f g = ground (arith, free_count-set xs i q e)

slots_left : (b : Bool) {k l : ℕ} → k ≡ suc l → l + (if b then 1 else 0) + (if b then 0 else 1) ≡ k
slots_left b e = ground arith

-- From a sound driver, on devices that are not open: where `telnet_get_pty` gives a slot to a connection and
-- a shell task runs on its device, as many slots are free at the end as at the start if the private
-- environment is there and the first open succeeds, and one fewer otherwise, whatever the shell and the
-- password check do with the device.
pub connection-Slots :
    (t : (k : ℕ) → Termios k) (uses : Event → List Use) (crypt : List ℕ → List ℕ → List ℕ)
    (env : Bool) (opens : ℕ → Bool) (w : World) (peer : List ℕ) (s : (k : ℕ) → (t k).State) (n : ℕ)
    (d : Driver) {name : List ℕ} {e : Driver} {cs : List Call}
    → IsDriver d
    → ((k : ℕ) → (t k).opens (s k) ≡ 0)
    → telnet_get_pty (pos n) d ≡ (some name, e, cs)
    → (minor : ℕ) × (name ≡ device_name minor)
      × (let (s', d') =
            perform_all (t minor) uses (spawned_shell crypt env opens w name peer) (s minor, e) in
          free_count d'.ptys + (if env && opens 0 then 0 else 1) ≡ free_count d.ptys)
connection-Slots t uses crypt env opens w peer s n d {name} {e} {cs} sound shut g =
    let c : Granted (pos n) d (some name, e, cs) =
      subst (Granted (pos n) d) g (telnet_get_pty-Granted (pos n) d) in
    let a = Claimed-ClaimedAt n c.0 in
    let h : IsDriver e = Granted-IsDriver n d (some name, e, cs) sound c in
    let b : a.minor < max_ptys = ground (arith, get_elem?-bound e.ptys a.minor a.at, h.count) in
    let live : is_neg a.slot.socket ≡ false = ap is_neg a.socket in
    let (left, (q, same, socket)) =
      spawned_shell-Frees (t a.minor) uses crypt env opens w name peer (s a.minor) e b a.at live
        (shut a.minor) in
    (
      a.minor,
      sym a.devname ∙ (IsSlot-at e a.minor h a.at).name,
      rw (same, free_count-taken e.ptys a.minor q (env && opens 0) a.at live socket)
          (slots_left (env && opens 0) (free_count-Claimed n c.0)),
    )
