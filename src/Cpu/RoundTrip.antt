-- ===== src/Cpu/RoundTrip.antt =====
-- A step and its undoing.
use riscv_trace_debugger.Prelude.{◌≡◌, some}
use riscv_trace_debugger.Memory.{Memory, Lawful}
use riscv_trace_debugger.Trace.{TraceEvent}
use riscv_trace_debugger.Cpu.{Cpu, step, step_undo}
use riscv_trace_debugger.Cpu.Replay.{IsSound, IsValid}
use riscv_trace_debugger.Cpu.Refine.{view, step_lem}
use riscv_trace_debugger.Cpu.Undo.{step_undo_lem}

-- Over every lawful memory, with 32 registers and bytes below 256: a step on a valid event (its
-- register index is below 32, its address and value fit their types) does not panic, and undoing the
-- event that it gives back restores all registers and every byte of the memory, with `pc` at the
-- event before.
pub step_undo-step :
    {M : Type 0} {mem : Memory M} (law : Lawful mem) (cpu : Cpu) (m : M) (e prev : TraceEvent)
    → IsSound (view law cpu m)
    → IsValid e
    → (cpu' : Cpu) × (m' : M) × (e' : TraceEvent) × (m'' : M) × (step mem cpu m e
        ≡ some (cpu', m', e'))
      × (step_undo mem cpu' m' e' (some prev) ≡ some (record cpu { pc = prev.pc }, m''))
      × (law.bytes m'' ≡ law.bytes m)
step_undo-step law cpu m e prev sound valid =
    let did = step_lem law cpu m e sound valid in
    let undone =
      step_undo_lem law (view law cpu m) e did.cpu' did.m' (some prev) sound valid did.meaning in
    (did.cpu', did.m', _, undone.m', did.returns, undone.returns, undone.restored)
