-- ===== src/Telnetd/Pty/Read.antt =====
-- `read_pty` of telnetd/pty.c: the telnet protocol machine, one call for each byte received.
pub mod Bounds
pub mod Escape
pub mod Frame
pub mod Naws
pub mod Negotiation
pub mod Ready
pub mod Session
pub mod Silent
pub mod Stream
use rtems_ssrl_apps.Prelude.{
  ℕ, ◌+◌, ◌*◌, ◌/◌, ◌%◌, ◌^◌, bit_or, ◌&&◌, Option, none, some, List, [], ◌∷◌, ◌==◌, ltb,
  if◌then◌else◌, get_or, set,
}
use rtems_ssrl_apps.Prelude.Int.{ℤ, pos, negsuc, minus_one}
use rtems_ssrl_apps.Telnetd.Pty.Slot.{
  TermiosTty, Pty, iac_esc, iac_dont, iac_do, iac_wont, iac_will, iac_sb, iac_ga, iac_el, iac_ec,
  iac_ayt, iac_ao, iac_ip, iac_brk, iac_dmark, iac_nop, iac_se, iac_eor, sb_max, iac_ayt_rsp,
  iac_brk_rsp, iac_ip_rsp,
}

-- What `read(pty->socket, &value, 1)` gives: an error, the end of the stream, or a byte.
pub data Input : Type 0 where
  failed : Input
  eof : Input
  byte : ℕ → Input

-- The value returned, the slot afterwards, and the buffers written to the socket, in order.
pub record Result : Type 0 where
  pub code : ℤ
  pub pty : Pty
  pub sent : List (List ℕ)

abbrev pub result : ℤ → Pty → List (List ℕ) → Result
result c p ws = record { code = c; pty = p; sent = ws }

-- `send_iac`: the three bytes that it writes.
abbrev pub send_iac : ℕ → ℕ → List ℕ
send_iac mode option = iac_esc ∷ mode ∷ option ∷ []

unfoldable pub handle_sb : Pty → Pty
handle_sb p =
    if get_or p.sb_buf 0 0 == 31
    then record p {
      width = get_or p.sb_buf 1 0 * 256 + get_or p.sb_buf 2 0;
      height = get_or p.sb_buf 3 0 * 256 + get_or p.sb_buf 4 0;
    }
    else p

-- The inner `switch (value)` behind an escape. `p` has its `iac_mode` cleared, `omod` is the old one.
after_esc : ℕ → ℕ → Pty → Result
unfolding handle_sb
after_esc omod value p =
    if value == iac_esc
    then result (pos iac_esc) (record p { iac_mode = omod / 2 ^ 8 }) []
    else if value == iac_dont
    then result minus_one (record p { iac_mode = value }) []
    else if value == iac_do
    then result minus_one (record p { iac_mode = value }) []
    else if value == iac_wont
    then result minus_one (record p { iac_mode = value }) []
    else if value == iac_will
    then result minus_one (record p { iac_mode = value }) []
    else if value == iac_sb
    then result (negsuc 99) (record p { iac_mode = value; sb_ind = 0 }) []
    else if value == iac_ga
    then result minus_one p []
    else if value == iac_el
    then result (pos 3) p []
    else if value == iac_ec
    then result (pos 8) p []
    else if value == iac_ayt
    then result minus_one p (iac_ayt_rsp ∷ [])
    else if value == iac_ao
    then result minus_one p []
    else if value == iac_ip
    then result minus_one p (iac_ip_rsp ∷ [])
    else if value == iac_brk
    then result minus_one p (iac_brk_rsp ∷ [])
    else if value == iac_dmark
    then result (negsuc 1) p []
    else if value == iac_nop
    then result minus_one p []
    else if value == iac_se
    then result (negsuc 100) (handle_sb p) []
    else if value == iac_eor
    then result (negsuc 101) p []
    else result minus_one p []

-- `case IAC_SB`: a byte of a subnegotiation.
in_sb : ℕ → ℕ → Pty → Result
in_sb omod value p =
    if value == iac_esc
    then result minus_one (record p { iac_mode = bit_or (omod * 2 ^ 8 % 2 ^ 32) value }) []
    else if ltb p.sb_ind sb_max
    then result minus_one
        (record p { iac_mode = omod; sb_buf = set p.sb_buf p.sb_ind value; sb_ind = p.sb_ind + 1 })
        []
    else result minus_one (record p { iac_mode = omod }) []

-- The replies to the option `value` behind WILL, DO and WONT.
after_will : ℕ → List (List ℕ)
after_will value =
    if value == 34
    then send_iac iac_dont 34 ∷ send_iac iac_do 1 ∷ []
    else if value == 31
    then send_iac iac_do 31 ∷ []
    else send_iac iac_dont value ∷ []

after_do : ℕ → List (List ℕ)
after_do value =
    if value == 3
    then send_iac iac_will 3 ∷ []
    else if value == 1
    then []
    else send_iac iac_wont value ∷ []

after_wont : ℕ → List (List ℕ)
after_wont value = if value == 1 then send_iac iac_will 1 ∷ [] else send_iac iac_wont value ∷ []

-- The `default` case: a byte outside any command.
plain : ℕ → Pty → Result
plain value p =
    if value == iac_esc
    then result minus_one (record p { iac_mode = value }) []
    else result (if value == 0 && p.last_cr then minus_one else pos value)
        (record p { last_cr = value == 13 }) []

-- The `switch (omod & 0xff)`.
unfoldable pub read_byte : ℕ → Pty → Result
unfolding after_esc in_sb after_will after_do after_wont plain
read_byte value p =
    let omod = p.iac_mode in
    let q = record p { iac_mode = 0 } in
    if omod % 256 == iac_esc
    then after_esc omod value q
    else if omod % 256 == iac_sb
    then in_sb omod value q
    else if omod % 256 == iac_will
    then result minus_one q (after_will value)
    else if omod % 256 == iac_dont
    then result minus_one q []
    else if omod % 256 == iac_do
    then result minus_one q (after_do value)
    else if omod % 256 == iac_wont
    then result minus_one q (after_wont value)
    else plain value q

-- At the end of the stream `cindex` is put behind `ccount`, so that termios' read returns 0.
read_eof : Pty → TermiosTty → Result
read_eof p t =
    result (pos t.veof) (record p { ttyp = some (record t { cindex = t.ccount + 1 }) }) []

-- `none` is the use of a NULL `ttyp`.
unfoldable pub read_pty : Input → Pty → Option Result
unfolding read_eof
read_pty failed p = some (result minus_one p [])
read_pty eof p = elim p.ttyp [ none ↦ none | some t ↦ some (read_eof p t) ]
read_pty (byte value) p = some (read_byte value p)
