-- ===== src/Monitor/Session/Commands.antt =====
-- The commands that a session runs, and the memory it gives back.
use rtems_ssrl_apps.Prelude.{
  ℕ, ◌+◌, ◌<◌, ◌≡◌, ◌≢◌, ◌⊎◌, codes, refl, Bool, true, false, Option, none, some, List, [], ◌∷◌,
  length, arith, Bool-cases, inl, inr, Option-cases,
}
use rtems_ssrl_apps.Monitor.Session.{
  Line, Event, called, invalid, not_found, Session, count, run_words, turn, session, Visit, visit,
}

-- A line of one to nineteen words of which a copy is made.
abbrev pub IsGood : Line → Type 0
IsGood l = (l.strdup ≡ true) × (0 < length l.words) × (length l.words < 20)

abbrev pub AllGood : List Line → Type 0
AllGood [] = Unit {0}
AllGood (l ∷ ls) = IsGood l × AllGood ls

-- The lines that end a session.
abbrev pub IsExit : List ℕ → Type 0
IsExit name = (name ≡ codes "exit") ⊎ (name ≡ codes "quit")

module _ (strtol : List ℕ → ℕ × Bool) (lookup : List ℕ → Option ℕ) where
  -- What becomes of a command: there is none of that name; it has no argument; its argument is a number,
  -- all of it, or not.
  pub data Does : (name : List ℕ) → (args : List (List ℕ)) → Event → Type 0 where
    unknown : {n : List ℕ} {others : List (List ℕ)} → lookup n ≡ none → Does n others not_found
    plain : {n : List ℕ} {fn : ℕ} → lookup n ≡ some fn → Does n [] (called fn 0)
    with_number :
        {n a : List ℕ} {others : List (List ℕ)} {fn v : ℕ}
        → lookup n ≡ some fn
        → a ≢ []
        → strtol a ≡ (v, true)
        → Does n (a ∷ others) (called fn v)
    with_other :
        {n a : List ℕ} {others : List (List ℕ)} {fn : ℕ}
        → lookup n ≡ some fn
        → (a ≡ []) ⊎ ((strtol a).1 ≡ false)
        → Does n (a ∷ others) invalid

  -- The commands of the lines before the first that ends the session, if one does, in order.
  pub data Runs : List Line → List Event → Type 0 where
    input_ends : Runs [] []
    exits :
        {l : Line} {ls : List Line} {name : List ℕ} {args : List (List ℕ)}
        → l.words ≡ name ∷ args
        → IsExit name
        → Runs (l ∷ ls) []
    runs :
        {l : Line} {ls : List Line} {name : List ℕ} {args : List (List ℕ)} {e : Event}
        {es : List Event}
        → l.words ≡ name ∷ args
        → ¬ IsExit name
        → Does name args e
        → Runs ls es
        → Runs (l ∷ ls) (e ∷ es)

module _ (strtol : List ℕ → ℕ × Bool) (lookup : List ℕ → Option ℕ) where
  run_words-frees :
      (buf : Bool) (ws : List (List ℕ)) (rest : Option Session) {s : Session}
      → ((r : Session) → rest ≡ some r → r.frees ≡ r.strdups + 1)
      → run_words strtol lookup buf ws rest ≡ some s
      → s.frees ≡ s.strdups + count buf
  unfolding run_words
  run_words-frees buf [] rest h e = cc
  run_words-frees buf (name ∷ args) none h e = ground arith
  run_words-frees buf (name ∷ args) (some r) h e = ground (arith, h r refl)

  -- What is held at the start, and the copies made, are freed, however the session ends.
  session-frees :
      (buf : Bool) (ls : List Line) {s : Session}
      → session strtol lookup buf ls ≡ some s
      → s.frees ≡ s.strdups + count buf
  unfolding session turn
  session-frees buf [] e = ground arith
  session-frees buf (l ∷ ls) {s} e = elim (Bool-cases l.strdup) [
    | inr b ↦ ground arith
    | inl b ↦ ground (
      arith,
      run_words-frees buf l.words (session strtol lookup true ls) {s = s}
          (λ r h. session-frees true ls h),
    )
  ]

  -- A visit frees every copy of a line and deletes the editor it made, whatever fails.
  pub visit-frees :
      (editor : Bool) (ls : List Line) {v : Visit}
      → visit strtol lookup editor ls ≡ some v
      → (v.session_of.frees ≡ v.session_of.strdups) × (v.editors_deleted ≡ v.editors_made)
  unfolding visit
  visit-frees false ls e = ground arith
  visit-frees true ls e = elim (Option-cases (session strtol lookup false ls)) [
    | inl n ↦ ground arith
    | inr (s, n) ↦ ground (arith, session-frees false ls n)
  ]
