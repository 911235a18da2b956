-- ===== src/Tests/Console.antt =====
-- Runs of `cat` and of the stack trace.
use rtems_ssrl_apps.Prelude.{
  ℕ, ◌≡◌, refl, Bool, true, Option, none, some, List, [], ◌∷◌, arith, if◌then◌else◌, replicate,
}
use rtems_ssrl_apps.Console.Outcome.{Reads}
use rtems_ssrl_apps.Monitor.Reports.{task_stack}
use rtems_ssrl_apps.Monitor.Reports.Trace.{task_stack-trace}

-- A `read` that gives one byte at a time.
abbrev one_byte : ℕ → List ℕ → Option ℕ
one_byte size [] = some 0
one_byte size (x ∷ xs) = some 1

one_byte-Reads : Reads one_byte
one_byte-Reads = record {
  some_bytes = λ size x xs p. (1, refl, omega arith, omega arith);
  at_end = λ size. refl;
}

-- A full buffer, which the trace of the own thread fills.
abbrev full : Bool → List ℕ
full own = if own then replicate 30 0x4000 else 0x4000 ∷ replicate 29 0

-- It reads behind the buffer.
reads_behind : task_stack true true true full ≡ none
reads_behind = task_stack-trace true full refl
