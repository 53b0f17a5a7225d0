-- ===== src/Machine/Runs/Total.antt =====
-- A call of `run` that is polled as often as it yields returns.
use riscv_trace_debugger.Prelude.{
  ℕ, ◌<◌, ◌≡◌, ◌≢◌, refl, sym, ◌∙◌, Option, none, some, List, length,
}
use native.Mathlib.Nat.{le_refl}
use riscv_trace_debugger.Trace.{TraceEvent}
use riscv_trace_debugger.Cpu.Replay.{State}
use riscv_trace_debugger.Machine.State.{Machine, ExecMode, continue, range_step, StopReason}
use riscv_trace_debugger.Machine.Step.{step}
use riscv_trace_debugger.Machine.Run.{
  Poll, ready, dropped, panicked, out_of_fuel, run_once, run_in_mode, run,
}
use riscv_trace_debugger.Machine.Consistent.{IsStart, Consistent}
use riscv_trace_debugger.Machine.Moves.Step.{SameControl}
use riscv_trace_debugger.Machine.Runs.Cancel.{run_loop-undisturbed, undisturbed-ne-dropped}
use riscv_trace_debugger.Machine.Runs.Returns.{Ran, ModeStops, run-Ran, finish-dropped}

run_once-ne-dropped :
    (r : Option (Machine × Option StopReason)) (m : Machine) → run_once r ≢ dropped m
unfolding run_once
run_once-ne-dropped none m h = cc
run_once-ne-dropped (some (m', event)) m h = cc

run_in_mode-ne-dropped :
    (mode : ExecMode) (fuel : ℕ) (m m' : Machine) → run_in_mode mode fuel fuel m ≢ dropped m'
unfolding run_in_mode
run_in_mode-ne-dropped ExecMode.step fuel m m' h = run_once-ne-dropped (step m) m' h
run_in_mode-ne-dropped continue fuel m m' h =
    undisturbed-ne-dropped none fuel m m'
      (sym (run_loop-undisturbed none fuel fuel 0 m (le_refl fuel)) ∙ h)
run_in_mode-ne-dropped (range_step a b) fuel m m' h =
    undisturbed-ne-dropped (some (a, b)) fuel m m'
      (sym (run_loop-undisturbed (some (a, b)) fuel fuel 0 m (le_refl fuel)) ∙ h)

run-ne-dropped : (fuel : ℕ) (m m' : Machine) → run fuel fuel m ≢ dropped m'
unfolding run
run-ne-dropped fuel m m' h =
    run_in_mode-ne-dropped m.exec_mode fuel m m'
      (finish-dropped (run_in_mode m.exec_mode fuel fuel m) m' h)

-- A call that has returned, and where.
pub record Returned (s : State) (trace : List TraceEvent) (mode : ExecMode) (m : Machine) (p : Poll)
    : Type 0 where
  pub m' : Machine
  pub event : StopReason
  pub returns : p ≡ ready m' event
  pub consistent : Consistent s trace m'
  pub control : SameControl m m'
  pub stops : ModeStops s trace mode m m' event

Ran-Returned :
    (s : State) (trace : List TraceEvent) (mode : ExecMode) (m : Machine) (p : Poll)
    → Ran s trace mode m p
    → ((m' : Machine) → p ≢ dropped m')
    → Returned s trace mode m p
Ran-Returned s trace mode m (ready m' event) (c, control, stops) never = record {
  m' = m';
  event = event;
  returns = refl;
  consistent = c;
  control = control;
  stops = stops;
}
Ran-Returned s trace mode m (dropped m') h never = absurd (never m' refl)
Ran-Returned s trace mode m panicked h never = absurd h
Ran-Returned s trace mode m out_of_fuel h never = absurd h

-- Where the trace is valid from its start, the machine agrees with the replay, and there is a round
-- for each event and one more and as many polls, `run` returns in every mode and both directions,
-- without a panic. In `Step` it makes one step; in `Continue` and `RangeStep` it stops at the first
-- index on its way with a breakpoint, or outside of the range, or at the end of the trace, with the
-- event that belongs there. The machine agrees with the replay where it stopped, and its mode,
-- direction and breakpoints are as before.
pub run-Returned :
    {s : State} {trace : List TraceEvent} (start : IsStart s trace) (fuel : ℕ) (m : Machine)
    → Consistent s trace m
    → length trace < fuel
    → Returned s trace m.exec_mode m (run fuel fuel m)
run-Returned {s} {trace} start fuel m c h =
    Ran-Returned s trace m.exec_mode m (run fuel fuel m) (run-Ran start fuel fuel m c h)
      (run-ne-dropped fuel m)
