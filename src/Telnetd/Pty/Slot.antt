-- ===== src/Telnetd/Pty/Slot.antt =====
-- The data of telnetd/pty.c: the telnet commands and the slot `struct pty_tt`.
use rtems_ssrl_apps.Prelude.{ℕ, Bool, Option, List, codes, ◌∷◌, [], ◌++◌}
use rtems_ssrl_apps.Prelude.Int.{ℤ}

abbrev pub iac_esc : ℕ
iac_esc = 255

abbrev pub iac_dont : ℕ
iac_dont = 254

abbrev pub iac_do : ℕ
iac_do = 253

abbrev pub iac_wont : ℕ
iac_wont = 252

abbrev pub iac_will : ℕ
iac_will = 251

abbrev pub iac_sb : ℕ
iac_sb = 250

abbrev pub iac_ga : ℕ
iac_ga = 249

abbrev pub iac_el : ℕ
iac_el = 248

abbrev pub iac_ec : ℕ
iac_ec = 247

abbrev pub iac_ayt : ℕ
iac_ayt = 246

abbrev pub iac_ao : ℕ
iac_ao = 245

abbrev pub iac_ip : ℕ
iac_ip = 244

abbrev pub iac_brk : ℕ
iac_brk = 243

abbrev pub iac_dmark : ℕ
iac_dmark = 242

abbrev pub iac_nop : ℕ
iac_nop = 241

abbrev pub iac_se : ℕ
iac_se = 240

abbrev pub iac_eor : ℕ
iac_eor = 239

abbrev pub sb_max : ℕ
sb_max = 16

-- `MAX_PTYS`, 8 in the header part and then capped at 5.
abbrev pub max_ptys : ℕ
max_ptys = 5

abbrev pub iac_ayt_rsp : List ℕ
iac_ayt_rsp = 13 ∷ 10 ∷ codes "AYT? Yes, RTEMS-SHELL is here" ++ 13 ∷ 10 ∷ []

abbrev pub iac_brk_rsp : List ℕ
iac_brk_rsp = codes "<*Break*>"

abbrev pub iac_ip_rsp : List ℕ
iac_ip_rsp = codes "<*Interrupt*>"

-- The part of termios' `struct rtems_termios_tty` that the driver touches.
pub record TermiosTty : Type 0 where
  pub cindex : ℕ
  pub ccount : ℕ
  pub veof : ℕ

-- `ttyp` is `none` for NULL; the flags `opened` and `last_cr` are Booleans.
pub record Pty : Type 0 where
  pub devname : List ℕ
  pub ttyp : Option TermiosTty
  pub c_cflag : ℕ
  pub opened : Bool
  pub socket : ℤ
  pub last_cr : Bool
  pub iac_mode : ℕ
  pub sb_buf : List ℕ
  pub sb_ind : ℕ
  pub width : ℕ
  pub height : ℕ
