-- ===== src/Gdb/Tracepoints/Ordered.antt =====
-- The order of the tracepoints: what an enumeration goes on to.
use riscv_trace_debugger.Prelude.{ℕ, ◌<◌, ◌≡◌, none, some}
use riscv_trace_debugger.BTreeMap.{get}
use riscv_trace_debugger.BTreeMap.Sorted.{IsSorted}
use riscv_trace_debugger.Machine.{Machine, Definition}
use riscv_trace_debugger.Gdb.Tracepoints.{EnumerateStep, source, action, done, next}

-- The step goes to the tracepoint with the next number, and ends where there is none.
abbrev pub IsNextStep : Machine → ℕ → EnumerateStep → Type 0
IsNextStep m tp source = ⊥
IsNextStep m tp action = ⊥
IsNextStep m tp done = (i : ℕ) → tp < i → get m.tracepoints i ≡ none
IsNextStep m tp (next tp' addr) =
    (tp < tp')
    × ((definition : Definition) × (get m.tracepoints tp' ≡ some definition)
        × (definition.0.addr ≡ addr))
    × ((i : ℕ) → tp < i → i < tp' → get m.tracepoints i ≡ none)

abbrev pub InOrder : Machine → Type 0
InOrder m = IsSorted m.tracepoints
