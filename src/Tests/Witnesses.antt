-- ===== src/Tests/Witnesses.antt =====
-- The theorems on the memory, the registers and the debugger's lists, at concrete inputs.
use riscv_trace_debugger.Prelude.{
  ℕ, zero, suc, ◌+◌, ◌++◌, ◌-◌, ◌^◌, ◌≡◌, ◌≢◌, refl, true, some, List, [], ◌∷◌, ok, if◌then◌else◌,
  arith,
}
use riscv_trace_debugger.Memory.{
  default, r8, simple_memory, simple_lawful, b16, read, write, le_value, put, simple_read-write,
  simple_write-write_back, simple_little_endian, SimpleMemory,
}
use riscv_trace_debugger.Trace.{TraceEvent}
use riscv_trace_debugger.Cpu
use riscv_trace_debugger.Cpu.{Cpu}
use riscv_trace_debugger.Cpu.RoundTrip.{step_undo-step}
use riscv_trace_debugger.MemSniffer.{contains}
use riscv_trace_debugger.Machine.{Machine, NewTracepoint, SourceTracepoint, registers}
use riscv_trace_debugger.BTreeMap
use riscv_trace_debugger.Gdb.Breakpoints.{
  WatchKind, remove_sw_breakpoint, add_hw_watchpoint, remove_hw_watchpoint,
}
use riscv_trace_debugger.Gdb.Breakpoints.Counts.{
  count, one, remove_sw_breakpoint-count, remove_hw_watchpoint-add,
}
use riscv_trace_debugger.Gdb.Tracepoints.{
  EnumerateStep, source, action, tracepoint_enumerate_start, tracepoint_enumerate_source,
}
use riscv_trace_debugger.Gdb.Tracepoints.Enumerate.{enumeration_skips_actions}
use riscv_trace_debugger.BufferedConnection
use riscv_trace_debugger.BufferedConnection.{writes, flushes, sends, run_calls, run_calls-written}
use riscv_trace_debugger.Tests.Sample.{
  machine, cpu, load_event, store_event, default-IsBytes, start-IsSound, store-IsValid,
}

abbrev top : ℕ
top = 2 ^ 64 - 1

simple_read-write_example :
    (read simple_memory b16 top (write simple_memory b16 top 0x1234 default)).0 ≡ 0x1234
simple_read-write_example =
    simple_read-write b16 top 0x1234 default default-IsBytes (omega arith) (omega arith)

simple_write-write_back_example :
    r8 (
      write simple_memory b16 top
        (read simple_memory b16 top default).0
        (write simple_memory b16 top 0x1234 default))
    ≡ r8 default
simple_write-write_back_example =
    simple_write-write_back b16 top 0x1234 default default-IsBytes (omega arith) (omega arith)

simple_little_endian_example :
    ((read simple_memory b16 top default).0 ≡ le_value 2 (r8 default) top)
    × (r8 (write simple_memory b16 top 0x1234 default) ≡ put 2 0x1234 (r8 default) top)
simple_little_endian_example =
    simple_little_endian b16 top 0x1234 default default-IsBytes (omega arith) (omega arith)

step_undo-step_example :
    (cpu' : Cpu) × (m' : SimpleMemory) × (e' : TraceEvent) × (m'' : SimpleMemory) × (Cpu.step
        simple_memory cpu default store_event
      ≡ some (cpu', m', e'))
    × (Cpu.step_undo simple_memory cpu' m' e' (some load_event) ≡ some (record cpu { pc = 4 }, m''))
    × (r8 m'' ≡ r8 default)
step_undo-step_example =
    step_undo-step simple_lawful cpu default store_event load_event start-IsSound store-IsValid

remove_sw_breakpoint-count_example :
    ((remove_sw_breakpoint machine 8).1 ≡ ok (contains (8 ∷ []) 8))
    × ((x : ℕ)
        → count x (8 ∷ [])
          ≡ count x (remove_sw_breakpoint machine 8).0.breakpoints
            + (if contains (8 ∷ []) 8 then one x 8 else 0))
remove_sw_breakpoint-count_example = remove_sw_breakpoint-count machine 8

-- The numbers between two bounds.
up : ℕ → ℕ → List ℕ
up from zero = []
up from (suc n) = from ∷ up (from + 1) n

abbrev range : ℕ → ℕ → List ℕ
range from to = up from (to - from)

abbrev watched : Machine
watched = (add_hw_watchpoint range 32 machine 100 2 WatchKind.write).0

remove_hw_watchpoint-add_example :
    ((remove_hw_watchpoint range 32 watched 100 2 WatchKind.read).1 ≡ ok true)
    × ((x : ℕ)
        → count x (remove_hw_watchpoint range 32 watched 100 2 WatchKind.read).0.watchpoints
          ≡ count x [])
remove_hw_watchpoint-add_example =
    remove_hw_watchpoint-add range 32 machine 100 2 WatchKind.write WatchKind.read

abbrev tp : NewTracepoint
tp = record { number = 1; addr = 8; enabled = true }

abbrev src : SourceTracepoint
src = record { number = 1; source = [] }

abbrev traced : Machine
traced = record machine { tracepoints = (1, (tp, src ∷ [], registers [] ∷ [])) ∷ [] }

has_source : BTreeMap.get traced.tracepoints 1 ≡ some (tp, src ∷ [], registers [] ∷ [])
unfolding BTreeMap.get
has_source = refl

enumeration_skips_actions_example :
    (tracepoint_enumerate_start traced (some 1) ≡ some (some tp, source))
    × ((step : ℕ) (reported : SourceTracepoint) (after : EnumerateStep)
        → tracepoint_enumerate_source traced 1 step ≡ some (reported, after)
        → after ≢ action)
enumeration_skips_actions_example =
    enumeration_skips_actions traced 1 tp src [] (registers [] ∷ []) has_source

abbrev calls : List BufferedConnection.Call
calls = writes 1 ∷ flushes ∷ writes 2 ∷ sends ∷ writes 3 ∷ sends ∷ []

run_calls-written_example :
    (run_calls calls BufferedConnection.default []).1
      ++ (run_calls calls BufferedConnection.default []).0.buffer
    ≡ 1 ∷ 2 ∷ 3 ∷ []
run_calls-written_example = run_calls-written calls BufferedConnection.default []
