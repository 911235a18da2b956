-- ===== src/Monitor/Session.antt =====
-- The session of `rtemsMonitor` of monitor/call.cc behind the busy mark: the lines it reads, the commands it
-- runs and the memory it takes; and `fnwrap`, by which a command calls its function.
pub mod Commands
use rtems_ssrl_apps.Prelude.{
  ℕ, suc, ◌+◌, Bool, true, false, not, ◌||◌, Option, none, some, List, [], ◌∷◌, length, ltb,
  if◌then◌else◌, codes,
}
use rtems_ssrl_apps.Telnetd.Passwd.{same_text}

-- A line that was read: its words, and whether `strdup` gives memory.
pub record Line : Type 0 where
  pub words : List (List ℕ)
  pub strdup : Bool

-- What becomes of a command: its function is called with a number, its argument is no number, or there is
-- no such command.
pub data Event : Type 0 where
  called : (function argument : ℕ) → Event
  invalid : Event
  not_found : Event

-- The events, and how often `strdup` gave a copy and one was freed.
pub record Session : Type 0 where
  pub events : List Event
  pub strdups : ℕ
  pub frees : ℕ

abbrev pub count : Bool → ℕ
count b = if b then 1 else 0

-- What the source prints before a call is left out. The argument is the word behind the command's name;
-- `strtol` gives its value and whether the whole word is a number.
unfoldable pub fnwrap : (strtol : List ℕ → ℕ × Bool) → List (List ℕ) → ℕ → Event
fnwrap strtol [] fn = called fn 0
fnwrap strtol (name ∷ []) fn = called fn 0
fnwrap strtol (name ∷ [] ∷ rest) fn = invalid
fnwrap strtol (name ∷ (c ∷ cs) ∷ rest) fn =
    let (n, whole) = strtol (c ∷ cs) in if whole then called fn n else invalid

-- `strcmp` with "exit" and "quit".
unfoldable pub is_exit : List ℕ → Bool
unfolding same_text
is_exit w = same_text (codes "exit") w || same_text (codes "quit") w

abbrev after : (event : Event) → (taken freed : ℕ) → Option Session → Option Session
after e t f none = none
after e t f (some s) =
    some (record { events = e ∷ s.events; strdups = t + s.strdups; frees = f + s.frees })

-- `lookup` is `rtems_monitor_command_lookup`.
module _ (strtol : List ℕ → ℕ × Bool) (lookup : List ℕ → Option ℕ) where
  unfoldable pub run_command : List ℕ → List (List ℕ) → Event
  unfolding fnwrap
  run_command name rest = elim (lookup name) [
    | none ↦ not_found
    | some fn ↦ fnwrap strtol (name ∷ rest) fn
  ]

  -- The words of a line behind the assertion on their number.
  run_words : (buf : Bool) → List (List ℕ) → Option Session → Option Session
  unfolding run_command is_exit
  run_words buf [] rest = none
  run_words buf (name ∷ args) rest =
      if is_exit name
      then some (record { events = []; strdups = 1; frees = count buf + 1 })
      else after (run_command name args) 1 (count buf) rest

  -- A line; `rest` is the loop from the next one on.
  turn : (buf : Bool) → Line → Option Session → Option Session
  unfolding run_words
  turn buf l rest =
      if not l.strdup
      then some (record { events = []; strdups = 0; frees = count buf })
      else if not (ltb (length l.words) 20)
      then none
      else run_words buf l.words rest

  -- The loop over the lines, to the end of the input; `buf` is whether a copy of a line is held. `none` is
  -- the assertion on the number of words, and the use of the first word of a line that has none.
  unfoldable pub session : (buf : Bool) → List Line → Option Session
  unfolding turn
  session buf [] = some (record { events = []; strdups = 0; frees = count buf })
  session buf (l ∷ ls) = turn buf l (session true ls)

-- `rtemsMonitor` once the busy mark is set: what it returns is 0; the line editor that it makes and deletes
-- is counted, and the session that it has with an editor.
pub record Visit : Type 0 where
  pub session_of : Session
  pub editors_made : ℕ
  pub editors_deleted : ℕ

module _ (strtol : List ℕ → ℕ × Bool) (lookup : List ℕ → Option ℕ) where
  -- `editor` is whether `new_GetLine` gives one.
  unfoldable pub visit : (editor : Bool) → List Line → Option Visit
  unfolding session
  visit editor ls =
      let none_run : Session = record { events = []; strdups = 0; frees = 0 } in
      if editor
      then elim (session strtol lookup false ls) [
        | none ↦ none
        | some s ↦ some (record { session_of = s; editors_made = 1; editors_deleted = 1 })
      ]
      else some (record { session_of = none_run; editors_made = 0; editors_deleted = 0 })
