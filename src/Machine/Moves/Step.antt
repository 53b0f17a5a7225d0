-- ===== src/Machine/Moves/Step.antt =====
-- `Machine::step` against the replay: where it goes and what it reports, in both directions.
use riscv_trace_debugger.Prelude.{
  ℕ, ◌+◌, ◌-◌, ◌≡◌, refl, ap, ◌∙◌, Bool, true, false, Option, none, some, List, ◌++◌, arith, length,
  ltb, leb, ◌==◌, if◌then◌else◌, Bool-cases, inl, inr,
}
use riscv_trace_debugger.MemSniffer.{contains}
use riscv_trace_debugger.Trace.{TraceEvent}
use riscv_trace_debugger.Cpu.Replay.{State}
use riscv_trace_debugger.Machine.State.{
  Machine, ExecDir, forwards, backwards, StopReason, done_step, sw_break, terminated, sigstop,
  TraceFrame,
}
use riscv_trace_debugger.Machine.Step.{
  step, step_towards, step_forwards, step_backwards, check_stop, collect_frames, hit_frames,
}
use riscv_trace_debugger.Machine.Consistent.{IsStart, Consistent, length-SameTrace}
use riscv_trace_debugger.Machine.Moves.Forwards.{Moved, moved, step_forwards-Moved}
use riscv_trace_debugger.Machine.Moves.Backwards.{step_backwards-Moved}

-- A step cannot leave the trace.
abbrev pub next_index : ExecDir → ℕ → ℕ → ℕ
next_index forwards n i = if ltb i n then i + 1 else i
next_index backwards n i = i - 1

abbrev pub at_end : ExecDir → ℕ → ℕ → Bool
at_end forwards n i = leb n i
at_end backwards n i = i == 0

abbrev pub end_event : ExecDir → StopReason
end_event forwards = terminated sigstop
end_event backwards = done_step

-- What a step reports: the end of the trace, or a breakpoint at the new `pc`.
abbrev pub step_event : ExecDir → ℕ → ℕ → List ℕ → ℕ → Option StopReason
step_event dir n i breakpoints pc =
    if at_end dir n i
    then some (end_event dir)
    else if contains breakpoints pc
    then some sw_break
    else none

-- What a move and a run leave alone.
pub record SameControl (m m' : Machine) : Type 0 where
  pub exec_mode : m'.exec_mode ≡ m.exec_mode
  pub exec_dir : m'.exec_dir ≡ m.exec_dir
  pub breakpoints : m'.breakpoints ≡ m.breakpoints

pub record StepsTo (s : State) (trace : List TraceEvent) (dir : ExecDir) (m : Machine)
    : Type 0 where
  pub m' : Machine
  pub returns :
      step m ≡ some (m', step_event dir (length trace) m.trace_index m.breakpoints m'.cpu.pc)
  pub index : m'.trace_index ≡ next_index dir (length trace) m.trace_index
  pub consistent : Consistent s trace m'
  pub control : SameControl m m'

frames : Machine → List TraceFrame
frames m = if m.tracing then m.traceframes ++ hit_frames m.tracepoints m.cpu else m.traceframes

collect_frames_lem : (m : Machine) → collect_frames m ≡ record m { traceframes = frames m }
unfolding collect_frames frames
collect_frames_lem m = elim (Bool-cases m.tracing) [ inl e ↦ rw e | inr e ↦ rw e ]

module _ {s : State} {trace : List TraceEvent} (start : IsStart s trace) (m : Machine)
    (c : Consistent s trace m) where
  -- the machine with the new frames
  abbrev framed : Machine
  framed = record m { traceframes = frames m }

  framed-Consistent : Consistent s trace framed
  framed-Consistent = record {
    same_trace = c.same_trace;
    in_range = c.in_range;
    at_state = c.at_state;
    filled = c.filled;
  }

  framed-control : SameControl m framed
  framed-control = record { exec_mode = refl; exec_dir = refl; breakpoints = refl }

  step-forwards : m.exec_dir ≡ forwards → step m ≡ step_forwards framed
  unfolding step
  step-forwards e =
      ap (λ (t : Machine). step_towards t.exec_dir t) (collect_frames_lem m)
      ∙ ap (λ d. step_towards d framed) e

  step-backwards : m.exec_dir ≡ backwards → step m ≡ step_backwards framed
  unfolding step
  step-backwards e =
      ap (λ (t : Machine). step_towards t.exec_dir t) (collect_frames_lem m)
      ∙ ap (λ d. step_towards d framed) e

  same_length : length m.trace ≡ length trace
  same_length = length-SameTrace m.trace trace c.same_trace

  -- nothing is done at the end of the trace
  StepsTo-end :
      (dir : ExecDir)
      → at_end dir (length trace) m.trace_index ≡ true
      → m.trace_index ≡ next_index dir (length trace) m.trace_index
      → step m ≡ some (framed, some (end_event dir))
      → StepsTo s trace dir m
  StepsTo-end dir over index returns = record {
    m' = framed;
    returns = rw over returns;
    index = index;
    consistent = framed-Consistent;
    control = framed-control;
  }

  StepsTo-move :
      (dir : ExecDir) {i : ℕ} {result : Option (Machine × Option StopReason)}
      → at_end dir (length trace) m.trace_index ≡ false
      → i ≡ next_index dir (length trace) m.trace_index
      → step m ≡ result
      → Moved s trace framed i result
      → StepsTo s trace dir m
  unfolding check_stop
  StepsTo-move dir {i} inside index enters did = record {
    m' = moved framed did.cpu did.mem did.events i;
    returns = rw inside (enters ∙ did.returns);
    index = index;
    consistent = did.consistent;
    control = record { exec_mode = refl; exec_dir = refl; breakpoints = refl };
  }

  StepsTo-forwards : m.exec_dir ≡ forwards → StepsTo s trace forwards m
  StepsTo-forwards e = elim (Bool-cases (leb (length trace) m.trace_index)) [
    | inl over ↦
        let over' : leb (length m.trace) m.trace_index ≡ true = rw same_length over in
        StepsTo-end forwards over (ground arith)
          (step-forwards e ∙ unfold step_forwards in rw over')
    | inr inside ↦
        StepsTo-move forwards {i = m.trace_index + 1} inside (ground arith) (step-forwards e)
          (step_forwards-Moved start framed-Consistent (ground (arith, same_length)))
  ]

  StepsTo-backwards : m.exec_dir ≡ backwards → StepsTo s trace backwards m
  StepsTo-backwards e = elim (Bool-cases (m.trace_index == 0)) [
    | inl over ↦
        StepsTo-end backwards over (ground arith)
          (step-backwards e ∙ unfold step_backwards in rw over)
    | inr inside ↦
        StepsTo-move backwards {i = m.trace_index - 1} inside refl (step-backwards e)
          (step_backwards-Moved start framed-Consistent (m.trace_index - 1) (ground arith))
  ]

  StepsTo-dir : (dir : ExecDir) → m.exec_dir ≡ dir → StepsTo s trace dir m
  StepsTo-dir forwards e = StepsTo-forwards e
  StepsTo-dir backwards e = StepsTo-backwards e

  -- `step` does one step of the replay. Where the trace is valid from its start and the machine
  -- agrees with the replay, it does not panic, goes to the next index in its direction (or stays, at
  -- the end of the trace), and the new machine agrees with the replay there: `pc`, registers, every
  -- byte of memory. It reports the end of the trace if it was there, else a breakpoint exactly if one
  -- is set at the new `pc`, and leaves mode, direction and breakpoints alone.
  pub step-StepsTo : StepsTo s trace m.exec_dir m
  step-StepsTo = StepsTo-dir m.exec_dir refl
