-- ===== src/Tests/Connection.antt =====
-- Runs of a connection, with a termios that counts opens.
use rtems_ssrl_apps.Prelude.{
  ℕ, zero, suc, ◌+◌, ◌≡◌, refl, ap, Bool, true, not, ◌++◌, ◌==◌, Option, none, some, List, [], ◌∷◌,
  arith,
}
use rtems_ssrl_apps.Prelude.Int.{pos}
use rtems_ssrl_apps.Telnetd.Passwd.{World}
use rtems_ssrl_apps.Telnetd.Pty.Read.{byte, eof}
use rtems_ssrl_apps.Telnetd.Pty.Driver.{
  Driver, Outcome, claim, telnet_get_pty, pty_poll_initialize, pty_shutdown, tiocgwinsz,
}
use rtems_ssrl_apps.Telnetd.Pty.Driver.Claims.{free_count}
use rtems_ssrl_apps.Telnetd.Pty.Driver.Setup.{device_name}
use rtems_ssrl_apps.Telnetd.Pty.Driver.Slots.{IsDriver}
use rtems_ssrl_apps.Telnetd.Daemon.{Event, passwd, spawned_shell}
use rtems_ssrl_apps.Telnetd.Connection.{
  Termios, Use, read_in, write_out, control, driver_of, perform_all,
}
use rtems_ssrl_apps.Telnetd.Connection.Slots.{connection-Slots}
use rtems_ssrl_apps.Tests.Samples.{driver, tty}

abbrev open_counted : ℕ → ℕ → Driver → ℕ × Driver
open_counted k zero d = (1, driver_of d (pty_poll_initialize 13 k tty d))
open_counted k (suc n) d = (suc (suc n), d)

abbrev close_counted : ℕ → ℕ → Driver → ℕ × Driver
close_counted k zero d = (0, d)
close_counted k (suc zero) d = (0, driver_of d (pty_shutdown k d))
close_counted k (suc (suc n)) d = (suc n, d)

module _ (k : ℕ) where
  counted_open : (n : ℕ) (d : Driver) → (open_counted k n d).0 ≡ suc n
  counted_open zero d = refl
  counted_open (suc n) d = refl

  counted_close : (n : ℕ) (d : Driver) (m : ℕ) → n ≡ suc m → (close_counted k n d).0 ≡ m
  counted_close zero d m e = absurd (omega arith)
  counted_close (suc zero) d m e = omega arith
  counted_close (suc (suc n)) d m e = omega arith

  counted_first :
      (n : ℕ) (d : Driver) (o : Outcome)
      → n ≡ 0
      → pty_poll_initialize 13 k tty d ≡ some o
      → (open_counted k n d).1 ≡ o.driver
  counted_first zero d o e f = ap (driver_of d) f
  counted_first (suc n) d o e f = absurd (omega arith)

  counted_again : (n : ℕ) (d : Driver) (m : ℕ) → n ≡ suc m → (open_counted k n d).1 ≡ d
  counted_again zero d m e = absurd (omega arith)
  counted_again (suc n) d m e = refl

  counted_last :
      (n : ℕ) (d : Driver) (o : Outcome)
      → n ≡ 1
      → pty_shutdown k d ≡ some o
      → (close_counted k n d).1 ≡ o.driver
  counted_last zero d o e f = absurd (omega arith)
  counted_last (suc zero) d o e f = ap (driver_of d) f
  counted_last (suc (suc n)) d o e f = absurd (omega arith)

  counted_before : (n : ℕ) (d : Driver) (m : ℕ) → n ≡ suc (suc m) → (close_counted k n d).1 ≡ d
  counted_before zero d m e = absurd (omega arith)
  counted_before (suc zero) d m e = absurd (omega arith)
  counted_before (suc (suc n)) d m e = refl

abbrev counting : (k : ℕ) → Termios k
counting k = record {
  State = ℕ;
  b9600_cs8 = 13;
  tty = tty;
  opens = λ n. n;
  open_device = open_counted k;
  close_device = close_counted k;
  opens-open = counted_open k;
  opens-close = counted_close k;
  open_first = counted_first k;
  open_again = counted_again k;
  close_last = counted_last k;
  close_before = counted_before k;
}

abbrev plain_crypt : List ℕ → List ℕ → List ℕ
plain_crypt text salt = salt ++ text

-- A client that sends nothing, on a terminal that works.
abbrev mute : World
mute = record {
  passwd_env = none;
  tcgetattr = pos 0;
  tcsetattr = pos 0;
  fgets = λ _. none;
  ungetc = true;
}

-- The password check reads, writes and asks for the size of the window.
abbrev uses : Event → List Use
uses (passwd _) =
    write_out (pos 1) (65 ∷ []) ∷ control tiocgwinsz ∷ read_in (byte 13) ∷ read_in eof ∷ []
uses _ = []

-- The third open fails.
abbrev twice : ℕ → Bool
twice n = not (n == 2)

driver-IsDriver : IsDriver driver
driver-IsDriver = ground arith

abbrev got : Option (List ℕ) × Driver
got = let (name, d, cs) = telnet_get_pty (pos 10) driver in (name, d)

connection-Slots_example :
    (minor : ℕ) × (device_name 1 ≡ device_name minor)
    × (let (s', d') =
          perform_all
            (counting minor)
            uses
            (spawned_shell plain_crypt true twice mute (device_name 1) [])
            (0, got.1) in
        free_count d'.ptys + 0 ≡ free_count driver.ptys)
unfolding telnet_get_pty claim
connection-Slots_example =
    connection-Slots counting uses plain_crypt true twice mute [] (λ k. 0) 10 driver driver-IsDriver
      (λ k. refl) refl
