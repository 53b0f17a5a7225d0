-- ===== src/Gdb/Resume/Direction.antt =====
-- Which way the machine runs after the debugger's requests.
use riscv_trace_debugger.Prelude.{ℕ, ◌≤◌, ◌<◌, ◌≡◌, none, List, length}
use riscv_trace_debugger.Trace.{TraceEvent}
use riscv_trace_debugger.Cpu.Replay.{State}
use riscv_trace_debugger.Machine.{Machine, backwards, StopReason, ready, run, continue}
use riscv_trace_debugger.Machine.Consistent.{IsStart, Consistent}
use riscv_trace_debugger.Machine.Runs.Stops.{StopsAt}
use riscv_trace_debugger.Machine.Runs.Total.{run-Returned}
use riscv_trace_debugger.Gdb.Resume.{resume, reverse_step}

-- A "continue" request after a reverse step runs backwards. Where the trace is valid from its
-- start, the machine agrees with the replay, and the fuel and the polls are more than the events,
-- `run` returns, with an event that a backwards run from where the machine was gives, and the
-- machine is no further along the trace.
pub resume-reverse_step :
    {s : State} {trace : List TraceEvent} (start : IsStart s trace) (fuel : ℕ) (m : Machine)
    → Consistent s trace m
    → length trace < fuel
    → (m' : Machine) × (event : StopReason) × (run fuel fuel (resume (reverse_step m).0 none).0
        ≡ ready m' event)
      × StopsAt s trace none m.breakpoints backwards m.trace_index m'.trace_index event
      × (m'.trace_index ≤ m.trace_index)
unfolding resume reverse_step
resume-reverse_step {s} {trace} start fuel m c h =
    let did = run-Returned start fuel asked asked-Consistent h in
    (did.m', did.event, did.returns, did.stops, did.stops.onward)
  where
    asked : Machine
    asked = record m { exec_mode = continue; exec_dir = backwards }

    asked-Consistent : Consistent s trace asked
    asked-Consistent = record {
      same_trace = c.same_trace;
      in_range = c.in_range;
      at_state = c.at_state;
      filled = c.filled;
    }
