-- ===== src/Machine/Moves/Backwards.antt =====
-- A step backwards.
use riscv_trace_debugger.Prelude.{
  ℕ, zero, suc, ◌+◌, ◌-◌, ◌<◌, ◌≡◌, refl, ap, sym, ◌∙◌, false, Option, none, some, List, arith,
  length, get_elem?, get_elem?-eq-some, ◌==◌,
}
use mathlib.Core.Option
use riscv_trace_debugger.Memory.{SimpleMemory, simple_lawful, simple_memory}
use riscv_trace_debugger.MemSniffer
use riscv_trace_debugger.MemSniffer.{MemSniffer, Access, mem_sniffer}
use riscv_trace_debugger.Trace.{TraceEvent}
use riscv_trace_debugger.Cpu
use riscv_trace_debugger.Cpu.{Cpu}
use riscv_trace_debugger.Cpu.Undo.{Undone, step_undo_lem, pc_before}
use riscv_trace_debugger.Cpu.Sniffed.{unwatched, step_undo-unwatched}
use riscv_trace_debugger.Cpu.Replay.{State, apply, fill, clear, replay, IsValid}
use riscv_trace_debugger.Cpu.Events.{replay-suc}
use riscv_trace_debugger.Machine.State.{Machine}
use riscv_trace_debugger.Machine.Step.{step_backwards, event_before, sniffer}
use riscv_trace_debugger.Machine.Consistent.{
  state_of, IsStart, Consistent, replay-SameTrace, event-SameTrace, IsValid-SameTrace,
  replay-IsSound,
}
use riscv_trace_debugger.Machine.Moves.Forwards.{Moved}

event_before-suc :
    (trace : List TraceEvent) (j : ℕ)
    → j < length trace
    → event_before trace (suc j) ≡ get_elem? trace j
unfolding event_before
event_before-suc trace j h = let e : suc j - 1 ≡ j = omega arith in rw e (ground arith)

pc-clear : (e e' : TraceEvent) → clear e ≡ clear e' → e.pc ≡ e'.pc
unfolding clear
pc-clear e e' h = ap (λ (e : TraceEvent). e.pc) h

pc-apply : (e : TraceEvent) (s : State) → (apply e s).cpu.pc ≡ e.pc
unfolding apply
pc-apply e s = refl

module _ {s : State} {trace : List TraceEvent} (start : IsStart s trace) {m : Machine}
    (c : Consistent s trace m) where
  -- `pc` goes back to where it was before the event at `i`.
  pc_goes_back :
      (i : ℕ) {e : TraceEvent}
      → get_elem? m.trace i ≡ some e
      → i < length m.trace
      → (pc : ℕ) → pc ≡ e.pc
      → pc_before (event_before m.trace i) pc ≡ (replay s trace i).cpu.pc
  unfolding replay
  pc_goes_back zero found h pc at =
      unfold event_before in
      let (e', found', same) = event-SameTrace m.trace trace 0 c.same_trace found in
      at ∙ pc-clear _ e' same ∙ sym (start.first_pc e' found')
  pc_goes_back (suc j) found h pc at =
      let (p, here) = get_elem?-eq-some m.trace j (omega arith) in
      ap (λ o. pc_before o pc) (event_before-suc m.trace j (omega arith) ∙ here)
      ∙ sym (
          ap (λ (t : State). t.cpu.pc)
            (sym (replay-SameTrace s m.trace trace (suc j) c.same_trace)
              ∙ replay-suc s m.trace j here)
          ∙ pc-apply p (replay s m.trace j))

  abbrev watched : SimpleMemory → MemSniffer SimpleMemory (Option Access)
  watched = unwatched simple_memory (λ access _. some access) none

  pub step_backwards-Moved : (i : ℕ) → m.trace_index ≡ i + 1 → Moved s trace m i (step_backwards m)
  unfolding step_backwards
  step_backwards-Moved i last = record {
    cpu = before.cpu;
    mem = did.m';
    events = m.trace;
    returns = rw (not_at_start, index, found, steps);
    consistent = record {
      same_trace = c.same_trace;
      in_range = omega (arith, c.in_range);
      at_state = ap (λ f. record { cpu = before.cpu; bytes = f }) did.restored;
      filled = λ j e' below at. c.filled j e' (omega arith) at;
    };
  }
    where
      in_trace : i < length m.trace
      in_trace = omega (arith, c.in_range)

      not_at_start : (m.trace_index == 0) ≡ false
      not_at_start = ground arith

      index : m.trace_index - 1 ≡ i
      index = omega arith

      before : State
      before = replay s trace i

      e : TraceEvent
      e = (get_elem?-eq-some m.trace i in_trace).0

      found : get_elem? m.trace i ≡ some e
      found = (get_elem?-eq-some m.trace i in_trace).1

      is_filled : e ≡ fill before e
      is_filled = c.filled i e (omega arith) found

      valid : IsValid e
      valid = IsValid-SameTrace m.trace trace i c.same_trace (λ e'. start.valid i e') found

      after : state_of m ≡ apply e before
      after =
          c.at_state
          ∙ ap (replay s trace) (omega arith)
          ∙ sym (replay-SameTrace s m.trace trace (suc i) c.same_trace)
          ∙ replay-suc s m.trace i found
          ∙ ap (apply e) (replay-SameTrace s m.trace trace i c.same_trace)

      prev : Option TraceEvent
      prev = event_before m.trace i

      did : Undone simple_lawful before e m.cpu m.mem prev
      did =
          step_undo_lem simple_lawful before e m.cpu m.mem prev
            (replay-IsSound s trace i start.sound) valid after

      pc : pc_before prev m.cpu.pc ≡ before.cpu.pc
      pc =
          pc_goes_back i found in_trace m.cpu.pc
            (ap (λ (t : State). t.cpu.pc) after ∙ pc-apply e before)

      steps :
          Cpu.step_undo (mem_sniffer simple_memory) m.cpu (sniffer m) e prev
          ≡ some (before.cpu, watched did.m')
      steps =
          unfold sniffer MemSniffer.new in
          step_undo-unwatched simple_memory (λ access _. some access) none m.cpu m.mem e prev
          ∙ ap (Option.map (λ r. (r.0, watched r.1))) (
              ap (λ t. Cpu.step_undo simple_memory m.cpu m.mem t prev) is_filled
              ∙ did.returns
              ∙ ap (λ t. some (record before.cpu { pc = t }, did.m')) pc)
