-- ===== src/Machine.antt =====
-- machine.rs: the machine that a debugger drives along the trace.
mod State
mod Step
mod Run
pub mod New
pub mod Consistent
pub mod Moves
pub mod Runs
pub use State.{
  ExecMode, continue, range_step, ExecDir, forwards, backwards, Signal, sigint, sigstop, StopReason,
  done_step, sw_break, signal, terminated, NewTracepoint, SourceTracepoint, TracepointAction,
  registers, other_action, TraceFrame, Definition, File, Machine,
}
unfoldable pub use Step.*
unfoldable pub use Run.*
