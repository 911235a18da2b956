-- ===== src/Telnetd/Passwd.antt =====
-- telnetd/check_passwd.c: the password prompt, for a telnetd that is built with the default password of
-- telnetd/passwd.h. `crypt` stands for `__des_crypt_r`, whose code is a copy of another library's.
pub mod Line
pub mod Verdict
use rtems_ssrl_apps.Prelude.{
  ℕ, zero, suc, ◌+◌, Bool, true, false, ◌||◌, Option, none, some, List, [], ◌∷◌, ◌++◌, ◌==◌,
  if◌then◌else◌, codes, length, get_or, set,
}
use rtems_ssrl_apps.Prelude.Int.{ℤ, pos, minus_one, is_nonzero}

abbrev pub max_pass_retry : ℕ
max_pass_retry = 3

abbrev pub telnetd_default_passwd : List ℕ
telnetd_default_passwd = codes "tduDcyLX12owo"

-- What `check_passwd` does to the terminal and the system, in order. `raw_mode` is the `tcsetattr` that
-- turns echo and line editing off, `restore` the one that puts the old attributes back.
pub data Event : Type 0 where
  raw_mode : Event
  prompt : Event
  reset_eof : Event
  newline : Event
  incorrect : Event
  sleep : ℕ → Event
  syslog_wrong : Event
  restore : Event

-- The answers of the system: TELNETD_PASSWD, the two calls on the terminal, what `fgets` reads at
-- each prompt (`none` on a timeout or the end), and whether `ungetc` succeeds.
pub record World : Type 0 where
  pub passwd_env : Option (List ℕ)
  pub tcgetattr : ℤ
  pub tcsetattr : ℤ
  pub fgets : ℕ → Option (List ℕ)
  pub ungetc : Bool

-- `strcmp(a, b) == 0` for texts without a NUL.
unfoldable pub same_text : List ℕ → List ℕ → Bool
same_text [] [] = true
same_text [] (y ∷ ys) = false
same_text (x ∷ xs) [] = false
same_text (x ∷ xs) (y ∷ ys) = let rest = same_text xs ys in if x == y then rest else false

-- The text in a buffer: what stands before the first NUL.
unfoldable pub c_str : List ℕ → List ℕ
c_str [] = []
c_str (x ∷ xs) = let rest = c_str xs in if x == 0 then [] else x ∷ rest

abbrev pub is_line_end : ℕ → Bool
is_line_end c = (c == 10) || (c == 13)

-- `while ( tmp > 0 && … buf[tmp-1] … ) buf[--tmp]=0;`
unfoldable pub cut_ends : ℕ → List ℕ → List ℕ
cut_ends zero buf = buf
cut_ends (suc tmp) buf =
    let rest = cut_ends tmp (set buf tmp 0) in if is_line_end (get_or buf tmp 0) then rest else buf

-- `tmp = strlen(buf)`, the loop, and the text that it leaves in the buffer.
unfoldable pub strip : List ℕ → List ℕ
unfolding c_str cut_ends
strip buf = c_str (cut_ends (length (c_str buf)) buf)

-- `strncpy(salt, pw, 2)` and the closing NUL.
unfoldable pub salt_of : List ℕ → List ℕ
salt_of [] = []
salt_of (a ∷ []) = a ∷ []
salt_of (a ∷ b ∷ _) = a ∷ b ∷ []

-- The password to meet: the environment's, or the default where that is unset or empty.
unfoldable pub expected_passwd : Option (List ℕ) → List ℕ
expected_passwd none = telnetd_default_passwd
expected_passwd (some []) = telnetd_default_passwd
expected_passwd (some (c ∷ cs)) = c ∷ cs

-- What follows the loop: the report if `retries` came to 0, and `done:` with the flags to restore.
unfoldable pub finish : Bool × Bool × List Event → ℤ × List Event
finish (ok, over, es) = (
  (if ok then pos 0 else minus_one),
  raw_mode ∷ es
      ++ ((if over then syslog_wrong ∷ [] else []) ++ restore ∷ (if ok then [] else sleep 2 ∷ [])),
)

module _ (crypt : List ℕ → List ℕ → List ℕ) where
  -- The line `buf` is the password `pw`.
  unfoldable pub accepts : List ℕ → List ℕ → Bool
  unfolding same_text strip salt_of
  accepts pw buf = same_text (crypt (strip buf) (salt_of pw)) pw

  -- The loop over `retries`; the value is `rval` and whether `retries` came to 0.
  unfoldable pub ask : World → List ℕ → ℕ → ℕ → Bool × Bool × List Event
  unfolding accepts
  ask w pw attempt zero = (false, true, [])
  ask w pw attempt (suc retries) = elim (w.fgets attempt) [
    | none ↦ (false, false, prompt ∷ (if w.ungetc then reset_eof ∷ [] else []))
    | some buf ↦
        if accepts pw buf
        then (true, false, prompt ∷ newline ∷ [])
        else let (ok, over, es) = ask w pw (suc attempt) retries in
          (ok, over, prompt ∷ newline ∷ incorrect ∷ sleep 2 ∷ es)
  ]

  -- The value returned and the events.
  unfoldable pub check_passwd : World → ℤ × List Event
  unfolding finish
  check_passwd w =
      if is_nonzero w.tcgetattr
      then (minus_one, sleep 2 ∷ [])
      else if is_nonzero w.tcsetattr
      then (minus_one, raw_mode ∷ sleep 2 ∷ [])
      else finish (ask w (expected_passwd w.passwd_env) 0 max_pass_retry)
