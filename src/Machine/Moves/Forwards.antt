-- ===== src/Machine/Moves/Forwards.antt =====
-- A step forwards.
use riscv_trace_debugger.Prelude.{
  ℕ, suc, ◌+◌, ◌<◌, ◌≡◌, ◌≢◌, ap, ap₂, sym, ◌∙◌, false, Option, none, some, List, arith, length,
  get_elem?, get_elem?-eq-some, get_elem?-set_self, get_elem?-set_ne, length-set, set, Bool-cases,
  leb, inl, inr, ==_iff, ◌==◌,
}
use mathlib.Core.Option
use mathlib.Core.Option.{some-injective}
use riscv_trace_debugger.Memory.{SimpleMemory, simple_lawful, simple_memory}
use riscv_trace_debugger.Trace.{TraceEvent}
use riscv_trace_debugger.Cpu
use riscv_trace_debugger.Cpu.{Cpu}
use riscv_trace_debugger.Cpu.Refine.{Stepped, step_lem}
use riscv_trace_debugger.Cpu.Sniffed.{unwatched, step-unwatched}
use riscv_trace_debugger.Cpu.Replay.{State, apply, fill, clear, replay, IsValid, IsSound}
use riscv_trace_debugger.Cpu.Events.{replay-suc, clear-fill, fill-fill}
use riscv_trace_debugger.Machine.State.{Machine, StopReason}
use riscv_trace_debugger.Machine.Step.{step_forwards, check_stop, sniffer}
use riscv_trace_debugger.MemSniffer
use riscv_trace_debugger.MemSniffer.{MemSniffer, Access, mem_sniffer}
use riscv_trace_debugger.Machine.Consistent.{
  state_of, IsStart, Consistent, map-set, replay-SameTrace, IsValid-SameTrace, replay-IsSound,
}

-- Where a move leaves the machine: the fields that a move changes, and all that it keeps.
abbrev pub moved : Machine → Cpu → SimpleMemory → List TraceEvent → ℕ → Machine
moved m cpu mem events index = record m {
  cpu = cpu;
  mem = mem;
  trace = events;
  trace_index = index;
}

-- The step came to its end at trace index `index`, and only a breakpoint is left to be looked for.
pub record Moved (s : State) (trace : List TraceEvent) (m : Machine) (index : ℕ)
    (result : Option (Machine × Option StopReason)) : Type 0 where
  pub cpu : Cpu
  pub mem : SimpleMemory
  pub events : List TraceEvent
  pub returns : result ≡ check_stop none (moved m cpu mem events index)
  pub consistent : Consistent s trace (moved m cpu mem events index)

module _ {s : State} {trace : List TraceEvent} (start : IsStart s trace) {m : Machine}
    (c : Consistent s trace m) where
  next_state :
      {e : TraceEvent}
      → get_elem? m.trace m.trace_index ≡ some e
      → replay s trace (suc m.trace_index) ≡ apply e (state_of m)
  next_state {e} found =
      sym (replay-SameTrace s m.trace trace (suc m.trace_index) c.same_trace)
      ∙ replay-suc s m.trace m.trace_index found
      ∙ ap (apply e) (replay-SameTrace s m.trace trace m.trace_index c.same_trace)
      ∙ ap (apply e) (sym c.at_state)

  set_filled :
      {e : TraceEvent} (i : ℕ) (e' : TraceEvent)
      → get_elem? m.trace m.trace_index ≡ some e
      → m.trace_index < length m.trace
      → i < m.trace_index + 1
      → get_elem? (set m.trace m.trace_index (fill (state_of m) e)) i ≡ some e'
      → e' ≡ fill (replay s trace i) e'
  set_filled {e} i e' found h below at = elim (Bool-cases (i == m.trace_index)) [
    | inl same ↦
        let here : i ≡ m.trace_index = (==_iff i m.trace_index).0 same in
        let is_filled : fill (state_of m) e ≡ e' = some-injective _ _ (
          sym (get_elem?-set_self m.trace m.trace_index (fill (state_of m) e) h)
          ∙ ap (get_elem? (set m.trace m.trace_index (fill (state_of m) e))) (sym here)
          ∙ at) in
        let at_here : state_of m ≡ replay s trace i = c.at_state ∙ ap (replay s trace) (sym here) in
        sym is_filled ∙ sym (fill-fill (state_of m) e) ∙ ap₂ fill at_here is_filled
    | inr other ↦
        let ne : m.trace_index ≢ i = λ p. ground arith in
        c.filled i e' (ground arith)
          (sym (get_elem?-set_ne m.trace m.trace_index i (fill (state_of m) e) ne) ∙ at)
  ]

  abbrev watched : SimpleMemory → MemSniffer SimpleMemory (Option Access)
  watched = unwatched simple_memory (λ access _. some access) none

  pub step_forwards-Moved :
      m.trace_index < length m.trace → Moved s trace m (m.trace_index + 1) (step_forwards m)
  unfolding step_forwards
  step_forwards-Moved h = record {
    cpu = did.cpu';
    mem = did.m';
    events = events;
    returns = rw (not_at_end, found, steps);
    consistent = record {
      same_trace =
          map-set clear m.trace m.trace_index filled found (clear-fill (state_of m) e)
          ∙ c.same_trace;
      in_range = rw length-set (omega arith);
      at_state = did.meaning ∙ sym (next_state found) ∙ ap (replay s trace) (omega arith);
      filled = λ i e' below at. set_filled i e' found h below at;
    };
  }
    where
      not_at_end : leb (length m.trace) m.trace_index ≡ false
      not_at_end = ground arith

      e : TraceEvent
      e = (get_elem?-eq-some m.trace m.trace_index h).0

      found : get_elem? m.trace m.trace_index ≡ some e
      found = (get_elem?-eq-some m.trace m.trace_index h).1

      sound : IsSound (state_of m)
      sound = rw c.at_state (replay-IsSound s trace m.trace_index start.sound)

      valid : IsValid e
      valid =
          IsValid-SameTrace m.trace trace m.trace_index c.same_trace
            (λ e'. start.valid m.trace_index e') found

      did : Stepped simple_lawful m.cpu m.mem e
      did = step_lem simple_lawful m.cpu m.mem e sound valid

      filled : TraceEvent
      filled = fill (state_of m) e

      events : List TraceEvent
      events = set m.trace m.trace_index filled

      steps :
          Cpu.step (mem_sniffer simple_memory) m.cpu (sniffer m) e
          ≡ some (did.cpu', watched did.m', filled)
      steps =
          unfold sniffer MemSniffer.new in
          step-unwatched simple_memory (λ access _. some access) none m.cpu m.mem e
          ∙ ap (Option.map (λ r. (r.0, watched r.1, r.2))) did.returns
