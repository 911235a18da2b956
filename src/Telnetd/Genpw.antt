-- ===== src/Telnetd/Genpw.antt =====
-- telnetd/genpw.c: the host's program that prints the definition of a password for telnetd/passwd.h.
-- `crypt` is the host's; what `getopt` makes of the command line is the options and the operands.
pub mod Login
use rtems_ssrl_apps.Prelude.{ℕ, Option, List, [], ◌∷◌, codes}

-- What `getopt(argc, argv, "hs:")` returns: 's' with `optarg`, 'h', or another character, '?' of an option
-- that it does not know.
pub data Flag : Type 0 where
  salt_flag : (optarg : List ℕ) → Flag
  help_flag : Flag
  other_flag : (ch : ℕ) → Flag

pub data Output : Type 0 where
  unknown_option : (ch : ℕ) → Output
  usage : Output
  definition : (passwd : Option (List ℕ)) → Output

-- The end of `main`, which has no `return` behind the definition.
pub data Exit : Type 0 where
  returns : ℕ → Exit
  falls_off : Exit

pub data Chosen : Type 0 where
  ended : List Output → Chosen
  chosen : (salt : List ℕ) → Chosen

abbrev pub default_salt : List ℕ
default_salt = codes "td"

-- The loop over the options; `default` falls through to the usage.
unfoldable pub choose_salt : (salt : List ℕ) → List Flag → Chosen
choose_salt salt [] = chosen salt
choose_salt salt (other_flag ch ∷ flags) = ended (unknown_option ch ∷ usage ∷ [])
choose_salt salt (help_flag ∷ flags) = ended (usage ∷ [])
choose_salt salt (salt_flag optarg ∷ flags) = choose_salt optarg flags

module _ (crypt : List ℕ → List ℕ → Option (List ℕ)) where
  unfoldable pub print_passwd : (salt : List ℕ) → (operands : List (List ℕ)) → Exit × List Output
  print_passwd salt [] = (returns 1, usage ∷ [])
  print_passwd salt (cleartext ∷ operands) = (falls_off, definition (crypt cleartext salt) ∷ [])

  abbrev pub after_options : Chosen → (operands : List (List ℕ)) → Exit × List Output
  after_options (ended es) operands = (returns 0, es)
  after_options (chosen salt) operands = print_passwd salt operands

  unfoldable pub main : List Flag → (operands : List (List ℕ)) → Exit × List Output
  main flags operands = after_options (choose_salt default_salt flags) operands
