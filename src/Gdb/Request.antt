-- ===== src/Gdb/Request.antt =====
-- The requests of a debugger that can change the machine, one for each method of the target that
-- gdbstub calls with `&mut self` and that writes to it or refuses to.
pub mod Core
use mathlib.Core.Option
use riscv_trace_debugger.Prelude.{ℕ, Option, none, some, List, [], ◌∷◌, ◌>>=◌}
use riscv_trace_debugger.Machine.{
  Machine, Signal, NewTracepoint, SourceTracepoint, TracepointAction,
}
use riscv_trace_debugger.Riscv.Id.{RiscvRegId}
use riscv_trace_debugger.Gdb.Resume
use riscv_trace_debugger.Gdb.Base
use riscv_trace_debugger.Gdb.SingleRegister
use riscv_trace_debugger.Gdb.Breakpoints
use riscv_trace_debugger.Gdb.Breakpoints.{WatchKind}
use riscv_trace_debugger.Gdb.Tracepoints
use riscv_trace_debugger.Gdb.Tracepoints.{FrameRequest}
use riscv_trace_debugger.Gdb.HostIo
use riscv_trace_debugger.Gdb.HostIo.{HostFs, HostIoOpenFlags}

pub data Request : Type 0 where
  resume single_step : Option Signal → Request
  range_step : ℕ → ℕ → Request
  reverse_cont reverse_step : Request
  add_sw_breakpoint remove_sw_breakpoint : ℕ → Request
  add_hw_watchpoint remove_hw_watchpoint : ℕ → ℕ → WatchKind → Request
  tracepoints_init : Request
  create_begin : NewTracepoint → Request
  create_continue : ℕ → TracepointAction → Request
  create_complete : ℕ → Request
  attach_source : SourceTracepoint → Request
  select_frame : FrameRequest → Request
  experiment_start experiment_stop : Request
  open_file : List ℕ → HostIoOpenFlags → Request
  close setfs : ℕ → Request
  write_registers : List ℕ → Request
  write_addrs : ℕ → List ℕ → Request
  write_register : RiscvRegId → List ℕ → Request

module _ (range : ℕ → ℕ → List ℕ) (w : ℕ) (fs : HostFs) where
  -- The machine after the request; `none` is a panic.
  unfoldable pub handle : Request → Machine → Option Machine
  handle (Request.resume signal) m = some (Resume.resume m signal).0
  handle (Request.single_step signal) m = some (Resume.single_step m signal).0
  handle (Request.range_step start end) m = some (Resume.resume_range_step m start end).0
  handle Request.reverse_cont m = some (Resume.reverse_cont m).0
  handle Request.reverse_step m = some (Resume.reverse_step m).0
  handle (Request.add_sw_breakpoint addr) m = some (Breakpoints.add_sw_breakpoint m addr).0
  handle (Request.remove_sw_breakpoint addr) m = some (Breakpoints.remove_sw_breakpoint m addr).0
  handle (Request.add_hw_watchpoint addr len kind) m =
      some (Breakpoints.add_hw_watchpoint range w m addr len kind).0
  handle (Request.remove_hw_watchpoint addr len kind) m =
      some (Breakpoints.remove_hw_watchpoint range w m addr len kind).0
  handle Request.tracepoints_init m = some (Tracepoints.tracepoints_init m).0
  handle (Request.create_begin tp) m = some (Tracepoints.tracepoint_create_begin m tp).0
  handle (Request.create_continue tp action) m =
      some (Tracepoints.tracepoint_create_continue m tp action).0
  handle (Request.create_complete tp) m = some (Tracepoints.tracepoint_create_complete m tp).0
  handle (Request.attach_source src) m =
      Option.map (λ r. r.0) (Tracepoints.tracepoint_attach_source m src)
  handle (Request.select_frame frame) m = some (Tracepoints.select_frame m frame).0
  handle Request.experiment_start m = some (Tracepoints.trace_experiment_start m).0
  handle Request.experiment_stop m = some (Tracepoints.trace_experiment_stop m).0
  handle (Request.open_file filename flags) m = some (HostIo.open_file fs m filename flags).0
  handle (Request.close fd) m = some (HostIo.close fs m fd).0
  handle (Request.setfs kind) m = some (HostIo.setfs m kind).0
  handle (Request.write_registers regs) m = some (Base.write_registers m regs).0
  handle (Request.write_addrs addr bytes) m = some (Base.write_addrs m addr bytes).0
  handle (Request.write_register id val) m = some (SingleRegister.write_register m id val).0

  unfoldable pub handle_all : List Request → Machine → Option Machine
  handle_all [] m = some m
  handle_all (r ∷ rs) m = do m' ← handle r m; handle_all rs m'
