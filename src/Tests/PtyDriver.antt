-- ===== src/Tests/PtyDriver.antt =====
-- Runs of the driver.
use rtems_ssrl_apps.Prelude.{◌≡◌, refl, some, arith, get_elem?}
use rtems_ssrl_apps.Prelude.Int.{pos, minus_one}
use rtems_ssrl_apps.Telnetd.Pty.Slot.{Pty}
use rtems_ssrl_apps.Telnetd.Pty.Read.{read_byte}
use rtems_ssrl_apps.Telnetd.Pty.Driver.{Outcome, telnet_get_pty, pty_poll_initialize}
use rtems_ssrl_apps.Telnetd.Pty.Driver.Claims.{Granted, telnet_get_pty-Granted}
use rtems_ssrl_apps.Telnetd.Pty.Driver.Size.{open-stale_cr}
use rtems_ssrl_apps.Telnetd.Pty.Driver.Slots.{IsDriver}
use rtems_ssrl_apps.Telnetd.Pty.Driver.Steps.{here, next, get, Reach-IsDriver}
use rtems_ssrl_apps.Tests.Samples.{tty, cr_pty, driver, cr_driver}

driver-IsDriver : IsDriver driver
driver-IsDriver = ground arith

-- Two connections more.
Reach-IsDriver_example : IsDriver (telnet_get_pty (pos 11) (telnet_get_pty (pos 10) driver).1).1
Reach-IsDriver_example = Reach-IsDriver (next (next here (get 10)) (get 11)) driver-IsDriver

telnet_get_pty-Granted_example : Granted (pos 10) driver (telnet_get_pty (pos 10) driver)
telnet_get_pty-Granted_example = telnet_get_pty-Granted (pos 10) driver

open-stale_cr_example :
    (o : Outcome) × (q : Pty) × (pty_poll_initialize 0 0 tty cr_driver ≡ some o)
    × (get_elem? o.driver.ptys 0 ≡ some q)
    × (q.iac_mode ≡ 0)
    × ((read_byte 0 q).code ≡ minus_one)
open-stale_cr_example = open-stale_cr 0 0 tty cr_driver cr_pty (omega arith) refl refl refl
