-- ===== src/Tests/Passwd.antt =====
-- Runs of the password check and of the password generator, with a stand-in for the encryption.
use rtems_ssrl_apps.Prelude.{
  ℕ, zero, suc, ◌≡◌, refl, ◌↔◌, true, Option, none, some, List, [], ◌∷◌, ◌++◌, codes,
}
use rtems_ssrl_apps.Prelude.Int.{pos}
use rtems_ssrl_apps.Telnetd.Passwd.{World, accepts, ask, expected_passwd, check_passwd}
use rtems_ssrl_apps.Telnetd.Passwd.Verdict.{
  HasTerminal, Admits, set_env, Accounted, check_passwd-Admits, check_passwd-Accounted,
}
use rtems_ssrl_apps.Telnetd.Genpw.{
  Flag, salt_flag, definition, usage, returns, falls_off, choose_salt, print_passwd, main,
}
use rtems_ssrl_apps.Telnetd.Genpw.Login.{IsTraditional, Enters, main-Enters}

-- Text behind its salt, in place of DES.
abbrev plain_crypt : List ℕ → List ℕ → List ℕ
plain_crypt text salt = salt ++ text

-- A wrong line, then the password "rtems" under the salt "td".
abbrev lines : ℕ → Option (List ℕ)
lines zero = some (codes "root" ++ 10 ∷ 0 ∷ [])
lines (suc zero) = some (codes "rtems" ++ 13 ∷ 10 ∷ 0 ∷ [])
lines (suc (suc n)) = none

abbrev peer : World
peer = record {
  passwd_env = some (codes "tdrtems");
  tcgetattr = pos 0;
  tcsetattr = pos 0;
  fgets = lines;
  ungetc = true;
}

check_passwd-Admits_example :
    ((check_passwd plain_crypt peer).0 ≡ pos 0)
    ↔ (HasTerminal peer × Admits plain_crypt peer (codes "tdrtems") 0 3)
check_passwd-Admits_example = check_passwd-Admits plain_crypt peer (codes "tdrtems") set_env

peer_let_in : (check_passwd plain_crypt peer).0 ≡ pos 0
unfolding check_passwd ask accepts expected_passwd
peer_let_in = refl

check_passwd-Accounted_example : Accounted plain_crypt peer (check_passwd plain_crypt peer).1
check_passwd-Accounted_example = check_passwd-Accounted plain_crypt peer

-- The host's encryption, likewise.
abbrev plain_host : List ℕ → List ℕ → Option (List ℕ)
plain_host text [] = none
plain_host text (a ∷ []) = none
plain_host text (a ∷ b ∷ _) = some (a ∷ b ∷ text)

plain-IsTraditional : IsTraditional plain_host plain_crypt
plain-IsTraditional = record { agrees = λ k r a b. refl; salt_first = λ k a b. (k, refl) }

-- The options -s xy -s tdz.
abbrev two_salts : List Flag
two_salts = salt_flag (codes "xy") ∷ salt_flag (codes "tdz") ∷ []

main-Enters_example :
    (main plain_host two_salts (codes "rtems" ∷ [])
      ≡ (falls_off, definition (some (codes "tdrtems")) ∷ []))
    × (((check_passwd plain_crypt peer).0 ≡ pos 0)
        ↔ (HasTerminal peer × Enters plain_crypt peer (codes "td") (codes "rtems") 0 3))
main-Enters_example =
    main-Enters plain_host plain_crypt plain-IsTraditional 116 100 two_salts (codes "rtems") [] peer
      (codes "z", refl) refl

no_password : main plain_host [] [] ≡ (returns 1, usage ∷ [])
unfolding main choose_salt print_passwd
no_password = refl
