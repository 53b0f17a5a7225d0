-- ===== src/Machine/State.antt =====
-- machine.rs: the state. Of the types of gdbstub only what the program reads is here.
use riscv_trace_debugger.Prelude.{ℕ, Bool, Option, List}
use riscv_trace_debugger.BTreeMap.{BTreeMap}
use riscv_trace_debugger.Memory.{SimpleMemory}
use riscv_trace_debugger.Trace.{TraceEvent}
use riscv_trace_debugger.Cpu.{Cpu}

pub data ExecMode : Type 0 where
  step continue : ExecMode
  range_step : ℕ → ℕ → ExecMode

pub data ExecDir : Type 0 where
  forwards backwards : ExecDir

-- gdbstub: the signals and the stop reasons that the program makes.
pub data Signal : Type 0 where
  sigint sigstop : Signal

pub data StopReason : Type 0 where
  done_step sw_break : StopReason
  signal terminated : Signal → StopReason

-- gdbstub: `Tracepoint` is a number.
pub record NewTracepoint : Type 0 where
  pub number : ℕ
  pub addr : ℕ
  pub enabled : Bool

pub record SourceTracepoint : Type 0 where
  pub number : ℕ
  pub source : List ℕ

-- `registers` has its mask; the program makes no difference between the other actions.
pub data TracepointAction : Type 0 where
  registers : List ℕ → TracepointAction
  other_action : TracepointAction

pub record TraceFrame : Type 0 where
  pub number : ℕ
  pub snapshot : Cpu

abbrev pub Definition : Type 0
Definition = NewTracepoint × List SourceTracepoint × List TracepointAction

-- `File` is an open file of the host, by the number that the host knows it by.
abbrev pub File : Type 0
File = ℕ

-- `send_time` holds the times that were handed to the channel, the latest one last.
pub record Machine : Type 0 where
  pub exec_mode : ExecMode
  pub exec_dir : ExecDir
  pub cpu : Cpu
  pub mem : SimpleMemory
  pub trace : List TraceEvent
  pub trace_index : ℕ
  pub elf : List ℕ
  pub entry : ℕ
  pub watchpoints : List ℕ
  pub breakpoints : List ℕ
  pub files : List (Option File)
  pub tracepoints : BTreeMap Definition
  pub traceframes : List TraceFrame
  pub tracing : Bool
  pub selected_frame : Option ℕ
  pub send_time : List ℕ
