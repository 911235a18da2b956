-- ===== src/Telnetd/Genpw/Login.antt =====
-- Who is let in by a password that telnetd/genpw.c has printed, by telnetd/check_passwd.c.
use rtems_ssrl_apps.Prelude.{
  ℕ, zero, suc, ◌≡◌, ◌≢◌, refl, ◌∙◌, ap, ◌↔◌, ◌⊎◌, inl, inr, true, false, Option, some, List, [],
  ◌∷◌, arith, Bool-cases,
}
use rtems_ssrl_apps.Prelude.Int.{pos}
use rtems_ssrl_apps.Telnetd.Passwd.{World, salt_of, c_str, accepts, expected_passwd, check_passwd}
use rtems_ssrl_apps.Telnetd.Passwd.Line.{chomp, strip-chomp}
use rtems_ssrl_apps.Telnetd.Passwd.Verdict.{
  same_text_iff, HasTerminal, Accepted, check_passwd-Accepted,
}
use rtems_ssrl_apps.Telnetd.Genpw.{
  Flag, salt_flag, help_flag, other_flag, definition, falls_off, chosen, choose_salt, default_salt,
  print_passwd, after_options, main,
}

-- The options are salts only, and the last one's first two characters, else those of `salt`, are `a`, `b`.
abbrev pub Salted : (a b : ℕ) → (salt : List ℕ) → List Flag → Type 0
Salted a b salt [] = (r : List ℕ) × (salt ≡ a ∷ b ∷ r)
Salted a b salt (salt_flag optarg ∷ flags) = Salted a b optarg flags
Salted a b salt (help_flag ∷ flags) = ⊥
Salted a b salt (other_flag ch ∷ flags) = ⊥

-- The traditional encryption, of the host and of telnetd: of a salt the first two characters count, and
-- they are in front of what is returned.
pub record IsTraditional (host : List ℕ → List ℕ → Option (List ℕ))
    (crypt : List ℕ → List ℕ → List ℕ) : Type 0 where
  pub agrees : (k r : List ℕ) (a b : ℕ) → host k (a ∷ b ∷ r) ≡ some (crypt k (a ∷ b ∷ []))
  pub salt_first : (k : List ℕ) (a b : ℕ) → (t : List ℕ) × (crypt k (a ∷ b ∷ []) ≡ a ∷ b ∷ t)

choose_salt-Salted :
    (a b : ℕ) (salt : List ℕ) (flags : List Flag)
    → Salted a b salt flags
    → (r : List ℕ) × (choose_salt salt flags ≡ chosen (a ∷ b ∷ r))
unfolding choose_salt
choose_salt-Salted a b salt [] (r, e) = (r, ap chosen e)
choose_salt-Salted a b salt (salt_flag optarg ∷ flags) h = choose_salt-Salted a b optarg flags h
choose_salt-Salted a b salt (help_flag ∷ flags) h = absurd h
choose_salt-Salted a b salt (other_flag ch ∷ flags) h = absurd h

-- From the given attempt on, with so many left, the text of some line, less the line ends at its end,
-- encrypts as the clear text `k` does, and all lines before it were read and do not.
abbrev pub Enters :
    (List ℕ → List ℕ → List ℕ) → World → (salt k : List ℕ) → (attempt left : ℕ) → Type 0
Enters crypt w salt k attempt zero = ⊥
Enters crypt w salt k attempt (suc left) =
    (buf : List ℕ) × (w.fgets attempt ≡ some buf)
    × ((crypt (chomp (c_str buf)) salt ≡ crypt k salt)
        ⊎ ((crypt (chomp (c_str buf)) salt ≢ crypt k salt)
            × Enters crypt w salt k (suc attempt) left))

module _ (host : List ℕ → List ℕ → Option (List ℕ)) (crypt : List ℕ → List ℕ → List ℕ)
    (t : IsTraditional host crypt) where
  main_prints :
      (a b : ℕ) (flags : List Flag) (k : List ℕ) (operands : List (List ℕ))
      → Salted a b default_salt flags
      → main host flags (k ∷ operands) ≡ (falls_off, definition (some (crypt k (a ∷ b ∷ []))) ∷ [])
  unfolding main print_passwd
  main_prints a b flags k operands s =
      let (r, e) = choose_salt-Salted a b default_salt flags s in
      ap (λ c. after_options host c (k ∷ operands)) e ∙ rw (t.agrees k r a b) refl

  -- The salt is found in the password.
  accepts-crypt :
      (a b : ℕ) (k buf : List ℕ)
      → (accepts crypt (crypt k (a ∷ b ∷ [])) buf ≡ true)
        ↔ (crypt (chomp (c_str buf)) (a ∷ b ∷ []) ≡ crypt k (a ∷ b ∷ []))
  unfolding accepts salt_of
  accepts-crypt a b k buf =
      let (x, e) = t.salt_first k a b in
      let s : salt_of (crypt k (a ∷ b ∷ [])) ≡ a ∷ b ∷ [] = ap salt_of e in
      rw (s, strip-chomp buf)
        (same_text_iff (crypt (chomp (c_str buf)) (a ∷ b ∷ [])) (crypt k (a ∷ b ∷ [])))

  refuses-crypt :
      (a b : ℕ) (k buf : List ℕ)
      → (accepts crypt (crypt k (a ∷ b ∷ [])) buf ≡ false)
        ↔ (crypt (chomp (c_str buf)) (a ∷ b ∷ []) ≢ crypt k (a ∷ b ∷ []))
  refuses-crypt a b k buf =
      let (f, g) = accepts-crypt a b k buf in
      (
        (λ e q. let r = g q in ground arith),
        λ n. elim (Bool-cases (accepts crypt (crypt k (a ∷ b ∷ [])) buf)) [
          | inl e ↦ absurd (n (f e))
          | inr e ↦ e
        ],
      )

  Accepted-Enters :
      (a b : ℕ) (k : List ℕ) (w : World) (m n : ℕ)
      → Accepted crypt w (crypt k (a ∷ b ∷ [])) m n ↔ Enters crypt w (a ∷ b ∷ []) k m n
  Accepted-Enters a b k w m zero = ((λ x. x), λ x. x)
  Accepted-Enters a b k w m (suc n) =
      let (f, g) = Accepted-Enters a b k w (suc m) n in
      (
        (λ (buf, e, x). (
          buf,
          e,
          elim x [
            | inl y ↦ inl ((accepts-crypt a b k buf).0 y)
            | inr (y, z) ↦ inr ((refuses-crypt a b k buf).0 y, f z)
          ],
        )),
        λ (buf, e, x). (
          buf,
          e,
          elim x [
            | inl y ↦ inl ((accepts-crypt a b k buf).1 y)
            | inr (y, z) ↦ inr ((refuses-crypt a b k buf).1 y, g z)
          ],
        ),
      )

  printed_is_expected :
      (a b : ℕ) (k : List ℕ) → expected_passwd (some (crypt k (a ∷ b ∷ []))) ≡ crypt k (a ∷ b ∷ [])
  unfolding expected_passwd
  printed_is_expected a b k = let (x, e) = t.salt_first k a b in rw e refl

  -- With no options but salts, the last of two characters or more, genpw prints one definition, of the
  -- clear text `k` under the first two characters of the last salt, or of "td" without one; and where
  -- TELNETD_PASSWD is that password, the peer is let in exactly if the terminal can be set up and the text
  -- of one of its first three lines, less the line ends, encrypts as `k` does, all lines before being read.
  -- The encryption is the traditional one.
  pub main-Enters :
      (a b : ℕ) (flags : List Flag) (k : List ℕ) (operands : List (List ℕ)) (w : World)
      → Salted a b default_salt flags
      → w.passwd_env ≡ some (crypt k (a ∷ b ∷ []))
      → (main host flags (k ∷ operands)
          ≡ (falls_off, definition (some (crypt k (a ∷ b ∷ []))) ∷ []))
        × (((check_passwd crypt w).0 ≡ pos 0) ↔ (HasTerminal w × Enters crypt w (a ∷ b ∷ []) k 0 3))
  main-Enters a b flags k operands w s e =
      let h : expected_passwd w.passwd_env ≡ crypt k (a ∷ b ∷ []) =
        ap expected_passwd e ∙ printed_is_expected a b k in
      let (f, g) = check_passwd-Accepted crypt w in
      let (x, y) = Accepted-Enters a b k w 0 3 in
      (
        main_prints a b flags k operands s,
        ((λ z. let (u, v) = f z in (u, x (rw⁻¹ h v))), λ z. let (u, v) = z in g (u, rw h (y v))),
      )
