-- ===== src/Monitor/Reports/Trace.antt =====
-- When the stack trace of monitor/stack.c stays within its buffer.
use rtems_ssrl_apps.Prelude.{
  ℕ, ◌+◌, ◌≤◌, ◌≡◌, refl, Bool, true, false, ◌||◌, none, some, List, [], ◌∷◌, ◌==◌, ltb,
  if◌then◌else◌, length, arith, Bool-cases, inl, inr,
}
use rtems_ssrl_apps.Prelude.Int.{pos}
use rtems_ssrl_apps.Monitor.Reports.{buffer_entries, stack_trace, task_stack}

abbrev pub has_zero : List ℕ → Bool
has_zero [] = false
has_zero (x ∷ xs) = x == 0 || has_zero xs

-- The entries before the first that is 0.
abbrev pub before_zero : List ℕ → List ℕ
before_zero [] = []
before_zero (x ∷ xs) = if x == 0 then [] else x ∷ before_zero xs

stack_trace-before_zero :
    (i : ℕ) (xs : List ℕ)
    → i + length xs ≤ buffer_entries
    → stack_trace i xs ≡ (if has_zero xs then some (before_zero xs) else none)
unfolding stack_trace
stack_trace-before_zero i [] b = refl
stack_trace-before_zero i (x ∷ xs) b = elim (Bool-cases (x == 0)) [
  | inl e ↦ rw e refl
  | inr e ↦
      let l : ltb i buffer_entries ≡ true = ground arith in
      elim (Bool-cases (has_zero xs)) [
        | inl z ↦ rw (e, l, stack_trace-before_zero (i + 1) xs (omega arith), z) refl
        | inr z ↦ rw (e, l, stack_trace-before_zero (i + 1) xs (omega arith), z) refl
      ]
]

-- Of a thread that is found on this node, `taskStack` prints the entries before the first that is 0, enables
-- dispatching once and returns 0, if an entry of the buffer is 0; if none is, it reads behind the buffer.
pub task_stack-trace :
    (own : Bool) (snapshot : Bool → List ℕ)
    → length (snapshot own) ≡ buffer_entries
    → task_stack true true own snapshot ≡ (
        if has_zero (snapshot own)
        then some (record { code = pos 0; enables = 1; printed = before_zero (snapshot own) })
        else none)
unfolding task_stack
task_stack-trace own snapshot l = elim (Bool-cases (has_zero (snapshot own))) [
  | inl z ↦ rw (stack_trace-before_zero 0 (snapshot own) (omega arith), z) refl
  | inr z ↦ rw (stack_trace-before_zero 0 (snapshot own) (omega arith), z) refl
]
