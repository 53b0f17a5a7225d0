-- ===== src/Machine/Step.antt =====
-- machine.rs: one step, forwards or backwards.
use riscv_trace_debugger.Prelude.{
  ℕ, ◌+◌, ◌-◌, ◌&&◌, Option, none, some, List, [], ◌∷◌, ◌++◌, ◌==◌, ltb, leb, length, get_elem?,
  set, if◌then◌else◌, ◌>>=◌,
}
use riscv_trace_debugger.BTreeMap.{BTreeMap}
use riscv_trace_debugger.Memory.{SimpleMemory, simple_memory}
use riscv_trace_debugger.MemSniffer
use riscv_trace_debugger.MemSniffer.{MemSniffer, Access, mem_sniffer, contains}
use riscv_trace_debugger.Trace.{TraceEvent}
use riscv_trace_debugger.Cpu
use riscv_trace_debugger.Cpu.{Cpu}
use riscv_trace_debugger.Machine.State.{
  Machine, Definition, TraceFrame, StopReason, done_step, sw_break, terminated, sigstop, ExecDir,
  forwards, backwards,
}

-- The tracepoints that are enabled at `pc`, in order, with the registers as they are.
unfoldable pub hit_frames : BTreeMap Definition → Cpu → List TraceFrame
hit_frames [] cpu = []
hit_frames ((tracepoint, definition) ∷ tps) cpu =
    let ctp = definition.0 in
    let rest = hit_frames tps cpu in
    if ctp.enabled && ctp.addr == cpu.pc
    then record { number = tracepoint; snapshot = cpu } ∷ rest
    else rest

unfoldable pub collect_frames : Machine → Machine
unfolding hit_frames
collect_frames m =
    if m.tracing
    then record m { traceframes = m.traceframes ++ hit_frames m.tracepoints m.cpu }
    else m

-- The end of `step`: a watchpoint hit is a `todo!()`, which panics.
unfoldable pub check_stop : Option Access → Machine → Option (Machine × Option StopReason)
unfolding contains
check_stop (some access) m = none
check_stop none m = some (m, if contains m.breakpoints m.cpu.pc then some sw_break else none)

-- `MemSniffer::new(&mut self.mem, &tmp, |access| hit_watchpoint = Some(access))`
unfoldable pub sniffer : Machine → MemSniffer SimpleMemory (Option Access)
unfolding MemSniffer.new
sniffer m = MemSniffer.new m.mem [] (λ access _. some access) none

unfoldable pub step_forwards : Machine → Option (Machine × Option StopReason)
unfolding sniffer
step_forwards m =
    if leb (length m.trace) m.trace_index then some (m, some (terminated sigstop)) else do
      event ← get_elem? m.trace m.trace_index
      (cpu, s, event') ← Cpu.step (mem_sniffer simple_memory) m.cpu (sniffer m) event
      check_stop s.captured (record m {
        cpu = cpu;
        mem = s.mem;
        trace = set m.trace m.trace_index event';
        trace_index = m.trace_index + 1;
      })

-- The event before the one that is undone, if there is one.
unfoldable pub event_before : List TraceEvent → ℕ → Option TraceEvent
event_before trace index =
    if leb 1 index && ltb (index - 1) (length trace) then get_elem? trace (index - 1) else none

unfoldable pub step_backwards : Machine → Option (Machine × Option StopReason)
unfolding sniffer
step_backwards m = if m.trace_index == 0 then some (m, some done_step) else do
  let index = m.trace_index - 1
  event ← get_elem? m.trace index
  (cpu, s) ←
      Cpu.step_undo (mem_sniffer simple_memory) m.cpu (sniffer m) event (event_before m.trace index)
  check_stop s.captured (record m { cpu = cpu; mem = s.mem; trace_index = index })

-- The `match self.exec_dir` of `step`.
unfoldable pub step_towards : ExecDir → Machine → Option (Machine × Option StopReason)
step_towards forwards m = step_forwards m
step_towards backwards m = step_backwards m

-- `Machine::step`; `none` is a panic.
unfoldable pub step : Machine → Option (Machine × Option StopReason)
unfolding step_towards
step m = let m' = collect_frames m in step_towards m'.exec_dir m'
