-- ===== src/Gdb/Resume.antt =====
-- How the machine is to run when it next runs: gdb/mod.rs (`resume`), single_thread_single_step.rs,
-- single_thread_range_step.rs and reverse.rs.
pub mod Direction
use Prim.Native.String.{String}
use riscv_trace_debugger.Prelude.{ℕ, Option, none, some, Result, ok, err}
use riscv_trace_debugger.Machine.{
  Machine, ExecMode, continue, range_step, forwards, backwards, Signal,
}

-- A method of `&mut self` gives the new machine and its result.
abbrev pub Handled : Type 0 → Type 0
Handled A = Machine × Result String A

unfoldable pub resume : Machine → Option Signal → Handled (Unit {0})
resume m (some signal) = (m, err "no support for continuing with signal")
resume m none = (record m { exec_mode = continue }, ok tt)

-- `step` of `SingleThreadSingleStep`
unfoldable pub single_step : Machine → Option Signal → Handled (Unit {0})
single_step m (some signal) = (m, err "no support for stepping with signal")
single_step m none = (record m { exec_mode = ExecMode.step; exec_dir = forwards }, ok tt)

unfoldable pub resume_range_step : Machine → ℕ → ℕ → Handled (Unit {0})
resume_range_step m start end =
    (record m { exec_mode = range_step start end; exec_dir = forwards }, ok tt)

unfoldable pub reverse_cont : Machine → Handled (Unit {0})
reverse_cont m = (record m { exec_mode = continue; exec_dir = backwards }, ok tt)

unfoldable pub reverse_step : Machine → Handled (Unit {0})
reverse_step m = (record m { exec_mode = ExecMode.step; exec_dir = backwards }, ok tt)
