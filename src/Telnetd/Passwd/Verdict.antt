-- ===== src/Telnetd/Passwd/Verdict.antt =====
-- Who is let in by `check_passwd`, and what is said and undone on the way.
use rtems_ssrl_apps.Prelude.{
  ℕ, zero, suc, ◌+◌, ◌≤◌, ◌≡◌, refl, ◌↔◌, ◌⊎◌, inl, inr, Bool, true, false, Option, none, some,
  codes, List, [], ◌∷◌, ◌++◌, arith, if◌then◌else◌, Bool-cases, Option-cases,
}
use rtems_ssrl_apps.Telnetd.Passwd.Line.{chomp, strip-chomp}
use rtems_ssrl_apps.Prelude.Int.{ℤ, pos, minus_one, is_nonzero}
use rtems_ssrl_apps.Telnetd.Passwd.{
  World, Event, salt_of, c_str, raw_mode, prompt, sleep, syslog_wrong, restore, same_text,
  expected_passwd, accepts, ask, finish, check_passwd, max_pass_retry,
}

pub same_text_iff : (xs ys : List ℕ) → (same_text xs ys ≡ true) ↔ (xs ≡ ys)
unfolding same_text
same_text_iff [] [] = ground arith
same_text_iff [] (y ∷ ys) = ground arith
same_text_iff (x ∷ xs) [] = ground arith
same_text_iff (x ∷ xs) (y ∷ ys) = ground (arith, same_text_iff xs ys)

-- Prompts, reports to the log and restored terminals among the events.
unfoldable pub prompts : List Event → ℕ
prompts [] = 0
prompts (prompt ∷ es) = suc (prompts es)
prompts (_ ∷ es) = prompts es

unfoldable pub reports : List Event → ℕ
reports [] = 0
reports (syslog_wrong ∷ es) = suc (reports es)
reports (_ ∷ es) = reports es

unfoldable pub restores : List Event → ℕ
restores [] = 0
restores (restore ∷ es) = suc (restores es)
restores (_ ∷ es) = restores es

module _ (crypt : List ℕ → List ℕ → List ℕ) (w : World) (pw : List ℕ) where
  -- From the given attempt on, with so many left, some line is accepted and all lines before it were
  -- read and are not.
  abbrev pub Accepted : ℕ → ℕ → Type 0
  Accepted attempt zero = ⊥
  Accepted attempt (suc left) =
      (buf : List ℕ) × (w.fgets attempt ≡ some buf)
      × ((accepts crypt pw buf ≡ true)
          ⊎ ((accepts crypt pw buf ≡ false) × Accepted (suc attempt) left))

  -- All of them are read, and none is accepted.
  abbrev pub AllWrong : ℕ → ℕ → Type 0
  AllWrong attempt zero = Unit {0}
  AllWrong attempt (suc left) =
      (buf : List ℕ) × (w.fgets attempt ≡ some buf)
      × (accepts crypt pw buf ≡ false)
      × AllWrong (suc attempt) left

  ask-Accepted : (a n : ℕ) → (ask crypt w pw a n).0 ≡ true → Accepted a n
  unfolding ask
  ask-Accepted a zero e = ground arith
  ask-Accepted a (suc n) e = elim (Option-cases (w.fgets a)) [
    | inl timeout ↦ ground arith
    | inr (buf, line) ↦ elim (Bool-cases (accepts crypt pw buf)) [
      | inl good ↦ (buf, line, inl good)
      | inr bad ↦ (buf, line, inr (bad, ask-Accepted (suc a) n (ground arith)))
    ]
  ]

  Accepted-ask : (a n : ℕ) → Accepted a n → (ask crypt w pw a n).0 ≡ true
  unfolding ask
  Accepted-ask a zero h = absurd h
  Accepted-ask a (suc n) (buf, line, inl good) = rw (line, ask, good)
  Accepted-ask a (suc n) (buf, line, inr (bad, rest)) =
      rw (line, ask, bad) (Accepted-ask (suc a) n rest)

  ask-AllWrong : (a n : ℕ) → (ask crypt w pw a n).1 ≡ true → AllWrong a n
  unfolding ask
  ask-AllWrong a zero e = tt
  ask-AllWrong a (suc n) e = elim (Option-cases (w.fgets a)) [
    | inl timeout ↦ absurd (ground arith)
    | inr (buf, line) ↦ elim (Bool-cases (accepts crypt pw buf)) [
      | inl good ↦ absurd (ground arith)
      | inr bad ↦ (buf, line, bad, ask-AllWrong (suc a) n (ground arith))
    ]
  ]

  AllWrong-ask : (a n : ℕ) → AllWrong a n → (ask crypt w pw a n).1 ≡ true
  unfolding ask
  AllWrong-ask a zero h = refl
  AllWrong-ask a (suc n) (buf, line, bad, rest) = rw (line, ask, bad) (AllWrong-ask (suc a) n rest)

  -- The loop prompts once for each line at most, and leaves the log and the terminal alone.
  ask_events :
      (a n : ℕ) (rest : List Event)
      → let es = (ask crypt w pw a n).2 in
        (prompts (es ++ rest) ≤ n + prompts rest)
        × (reports (es ++ rest) ≡ reports rest)
        × (restores (es ++ rest) ≡ restores rest)
  unfolding ask prompts reports restores
  ask_events a zero rest = omega arith
  ask_events a (suc n) rest = ground (arith, ask_events (suc a) n rest)

-- The password to meet, where TELNETD_PASSWD is set, unset, or empty.
pub data IsPassword : (env : Option (List ℕ)) → (pw : List ℕ) → Type 0 where
  set_env : {c : ℕ} {cs : List ℕ} → IsPassword (some (c ∷ cs)) (c ∷ cs)
  unset_env : IsPassword none (codes "tduDcyLX12owo")
  empty_env : IsPassword (some []) (codes "tduDcyLX12owo")

expected_passwd-IsPassword :
    (env : Option (List ℕ)) (pw : List ℕ) → IsPassword env pw → expected_passwd env ≡ pw
unfolding expected_passwd
expected_passwd-IsPassword (some (c ∷ cs)) pw set_env = refl
expected_passwd-IsPassword none pw unset_env = refl
expected_passwd-IsPassword (some []) pw empty_env = refl

abbrev pub front : ℕ → List ℕ → List ℕ
front zero xs = []
front (suc n) [] = []
front (suc n) (x ∷ xs) = x ∷ front n xs

salt_of-front : (pw : List ℕ) → salt_of pw ≡ front 2 pw
unfolding salt_of
salt_of-front [] = refl
salt_of-front (a ∷ []) = refl
salt_of-front (a ∷ b ∷ r) = refl

module _ (crypt : List ℕ → List ℕ → List ℕ) (w : World) (pw : List ℕ) where
  -- The text of a line, less the line ends at its end, is the password, encrypted.
  abbrev pub IsTyped : List ℕ → Type 0
  IsTyped buf = crypt (chomp (c_str buf)) (front 2 pw) ≡ pw

  -- From the given attempt on, with so many left, some line is the password, and all lines before it were
  -- read and are not.
  abbrev pub Admits : (attempt left : ℕ) → Type 0
  Admits attempt zero = ⊥
  Admits attempt (suc left) =
      (buf : List ℕ) × (w.fgets attempt ≡ some buf)
      × (IsTyped buf ⊎ ((¬ IsTyped buf) × Admits (suc attempt) left))

  accepts-IsTyped : (buf : List ℕ) → (accepts crypt pw buf ≡ true) ↔ IsTyped buf
  unfolding accepts
  accepts-IsTyped buf =
      rw (salt_of-front pw, strip-chomp buf)
        (same_text_iff (crypt (chomp (c_str buf)) (front 2 pw)) pw)

  refuses-IsTyped : (buf : List ℕ) → (accepts crypt pw buf ≡ false) ↔ (¬ IsTyped buf)
  refuses-IsTyped buf =
      let (f, g) = accepts-IsTyped buf in
      (
        (λ e q. let r = g q in ground arith),
        λ n. elim (Bool-cases (accepts crypt pw buf)) [ inl e ↦ absurd (n (f e)) | inr e ↦ e ],
      )

  Accepted-Admits : (m n : ℕ) → Accepted crypt w pw m n ↔ Admits m n
  Accepted-Admits m zero = ((λ x. x), λ x. x)
  Accepted-Admits m (suc n) =
      let (f, g) = Accepted-Admits (suc m) n in
      (
        (λ (buf, e, x). (
          buf,
          e,
          elim x [
            | inl y ↦ inl ((accepts-IsTyped buf).0 y)
            | inr (y, z) ↦ inr ((refuses-IsTyped buf).0 y, f z)
          ],
        )),
        λ (buf, e, x). (
          buf,
          e,
          elim x [
            | inl y ↦ inl ((accepts-IsTyped buf).1 y)
            | inr (y, z) ↦ inr ((refuses-IsTyped buf).1 y, g z)
          ],
        ),
      )

-- The two calls on the terminal succeed.
abbrev pub HasTerminal : World → Type 0
HasTerminal w = (is_nonzero w.tcgetattr ≡ false) × (is_nonzero w.tcsetattr ≡ false)

-- What `finish` adds to events that hold no report and no restored terminal.
finish_counts :
    (ok over : Bool) (es : List Event)
    → ((rest : List Event)
        → (prompts (es ++ rest) ≤ 3 + prompts rest)
          × (reports (es ++ rest) ≡ reports rest)
          × (restores (es ++ rest) ≡ restores rest))
    → let all = (finish (ok, over, es)).1 in
      (prompts all ≤ 3) × (reports all ≡ (if over then 1 else 0)) × (restores all ≡ 1)
unfolding finish prompts reports restores
finish_counts true true es h = ground (arith, h (syslog_wrong ∷ restore ∷ []))
finish_counts true false es h = ground (arith, h (restore ∷ []))
finish_counts false true es h = ground (arith, h (syslog_wrong ∷ restore ∷ sleep 2 ∷ []))
finish_counts false false es h = ground (arith, h (restore ∷ sleep 2 ∷ []))

module _ (crypt : List ℕ → List ℕ → List ℕ) (w : World) where
  -- The value of `check_passwd`, by the three ways through it.
  by_terminal :
      (P : ℤ × List Event → Type 0)
      → (¬ HasTerminal w → P (minus_one, sleep 2 ∷ []))
      → (¬ HasTerminal w → P (minus_one, raw_mode ∷ sleep 2 ∷ []))
      → (HasTerminal w → P (finish (ask crypt w (expected_passwd w.passwd_env) 0 max_pass_retry)))
      → P (check_passwd crypt w)
  unfolding check_passwd
  by_terminal P f g h = elim (Bool-cases (is_nonzero w.tcgetattr)) [
    | inl e ↦ rw e (f (λ t. cc))
    | inr e ↦ elim (Bool-cases (is_nonzero w.tcsetattr)) [
      | inl e' ↦ rw (e, e') (g (λ t. cc))
      | inr e' ↦ rw (e, e') (h (e, e'))
    ]
  ]

  pub check_passwd-Accepted :
      ((check_passwd crypt w).0 ≡ pos 0)
      ↔ (HasTerminal w × Accepted crypt w (expected_passwd w.passwd_env) 0 max_pass_retry)
  unfolding finish
  check_passwd-Accepted =
      let pw = expected_passwd w.passwd_env in
      by_terminal (λ r. (r.0 ≡ pos 0) ↔ (HasTerminal w × Accepted crypt w pw 0 max_pass_retry))
        (λ no_term. ((λ e. cc), λ a. absurd (no_term a.0)))
        (λ no_term. ((λ e. cc), λ a. absurd (no_term a.0)))
        λ t. (
          (λ e. (t, ask-Accepted crypt w pw 0 max_pass_retry (ground arith))),
          λ a. rw (Accepted-ask crypt w pw 0 max_pass_retry a.1),
        )

  -- The peer is let in exactly if the terminal could be set up and the text of one of its first three lines,
  -- less the line ends, encrypts to the password under the first two characters of it, all lines before
  -- being read. The password is that of TELNETD_PASSWD, or the default one of telnetd/passwd.h where that
  -- is unset or empty.
  pub check_passwd-Admits :
      (pw : List ℕ)
      → IsPassword w.passwd_env pw
      → ((check_passwd crypt w).0 ≡ pos 0) ↔ (HasTerminal w × Admits crypt w pw 0 3)
  check_passwd-Admits pw i =
      let e = expected_passwd-IsPassword w.passwd_env pw i in
      let (f, g) = check_passwd-Accepted in
      let (x, y) = Accepted-Admits crypt w pw 0 3 in
      ((λ z. let (u, v) = f z in (u, x (rw⁻¹ e v))), λ z. let (u, v) = z in g (u, rw e (y v)))

  -- What the events say of a run.
  abbrev pub Accounted : List Event → Type 0
  Accounted es =
      (prompts es ≤ max_pass_retry)
      × (reports es ≤ 1)
      × ((reports es ≡ 1)
          ↔ (HasTerminal w × AllWrong crypt w (expected_passwd w.passwd_env) 0 max_pass_retry))
      × ((restores es ≡ 1) ↔ HasTerminal w)
      × (restores es ≤ 1)

  silent-Accounted :
      (es : List Event)
      → prompts es ≡ 0
      → reports es ≡ 0
      → restores es ≡ 0
      → ¬ HasTerminal w
      → Accounted es
  silent-Accounted es p r s t = (
    omega arith,
    omega arith,
    ((λ e. absurd (omega arith)), λ a. absurd (t a.0)),
    ((λ e. absurd (omega arith)), λ a. absurd (t a)),
    omega arith,
  )

  asked-Accounted :
      HasTerminal w
      → Accounted (finish (ask crypt w (expected_passwd w.passwd_env) 0 max_pass_retry)).1
  asked-Accounted t =
      let pw = expected_passwd w.passwd_env in
      let (ok, over, es) = ask crypt w pw 0 max_pass_retry in
      let (p, r, s) = finish_counts ok over es (ask_events crypt w pw 0 max_pass_retry) in
      let one : (reports (finish (ok, over, es)).1 ≡ 1) → over ≡ true = ground arith in
      (
        p,
        ground arith,
        (
          (λ e. (t, ask-AllWrong crypt w pw 0 max_pass_retry (one e))),
          λ a. rw (r, AllWrong-ask crypt w pw 0 max_pass_retry a.1),
        ),
        ((λ e. t), λ a. s),
        omega arith,
      )

  -- There are at most three prompts; there is a report to the log, and one only, exactly if there is
  -- a terminal and three lines were read and refused; and the terminal is restored, once, exactly if
  -- it was set up.
  pub check_passwd-Accounted : Accounted (check_passwd crypt w).1
  unfolding prompts reports restores
  check_passwd-Accounted =
      by_terminal (λ r. Accounted r.1) (silent-Accounted (sleep 2 ∷ []) refl refl refl)
        (silent-Accounted (raw_mode ∷ sleep 2 ∷ []) refl refl refl) asked-Accounted
