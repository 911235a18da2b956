-- ===== src/Monitor/Reports.antt =====
-- `taskStack` of monitor/stack.c, as it is built for PowerPC, and `memUsageDump` of monitor/memusage.c.
pub mod Trace
use rtems_ssrl_apps.Prelude.{
  ℕ, ◌+◌, Bool, true, false, not, ◌||◌, Option, none, some, List, [], ◌∷◌, ◌==◌, ltb, if◌then◌else◌,
}
use rtems_ssrl_apps.Prelude.Int.{ℤ, pos, negsuc, minus_one}

-- `NumberOf(stackbuf)`.
abbrev pub buffer_entries : ℕ
buffer_entries = 30

-- The loop that prints the trace, from the `i`-th entry on, on the entries from there: `stackbuf[i]` is read
-- before `i` is tested. `none` is a read behind the buffer.
unfoldable pub stack_trace : (i : ℕ) → (entries : List ℕ) → Option (List ℕ)
stack_trace i [] = none
stack_trace i (x ∷ xs) =
    let rest = stack_trace (i + 1) xs in
    if x == 0
    then some []
    else if ltb i buffer_entries
    then elim rest [ none ↦ none | some ys ↦ some (x ∷ ys) ]
    else some []

-- The value returned, how often `_Thread_Enable_dispatch` is called, and the trace that is printed.
pub record Report : Type 0 where
  pub code : ℤ
  pub enables : ℕ
  pub printed : List ℕ

-- `local` and `found` are what `_Thread_Get` tells: it has disabled dispatching if it has found a thread.
-- `snapshot` is the buffer behind `CPU_stack_take_snapshot` of this thread, if it is `own`, or of another.
unfoldable pub task_stack : (local found own : Bool) → (snapshot : Bool → List ℕ) → Option Report
task_stack local found own snapshot =
    if not local || not found
    then some (record { code = minus_one; enables = if found then 1 else 0; printed = [] })
    else elim (stack_trace 0 (snapshot own)) [
      | none ↦ none
      | some ys ↦ some (record { code = pos 0; enables = 1; printed = ys })
    ]

-- What `memUsageDump` does with thread dispatching.
pub data Event : Type 0 where
  disable_dispatch : Event
  heap_information : Event
  enable_dispatch : Event

-- `late` is RTEMS 4.9.99 or later, where the status of the workspace is not looked at; `known` is whether it
-- is a success, and `heapsz` the free space of the heap.
unfoldable pub mem_usage_dump : (late doit known : Bool) → (heapsz : ℤ) → ℤ × List Event
mem_usage_dump late doit known heapsz =
    let es = disable_dispatch ∷ heap_information ∷ enable_dispatch ∷ [] in
    let rval = if late then pos 0 else if known then pos 0 else pos 1 in
    if not doit
    then (minus_one, [])
    else elim heapsz [ negsuc n ↦ ((if n == 0 then minus_one else rval), es) | pos n ↦ (rval, es) ]
