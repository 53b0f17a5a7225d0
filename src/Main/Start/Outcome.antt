-- ===== src/Main/Start/Outcome.antt =====
-- What `main` comes to, on every path.
use mathlib.Core.Option
use riscv_trace_debugger.Prelude.{
  ℕ, ◌≡◌, Bool, true, false, Option, none, some, List, Result, ok, err, if◌then◌else◌,
}
use riscv_trace_debugger.Trace.{Text}
use riscv_trace_debugger.Logging.{LogTarget, init_logging}
use riscv_trace_debugger.Machine.{Machine}
use riscv_trace_debugger.Machine.New.{Outcome, failed, new}
use riscv_trace_debugger.Trace.{TraceEvent}
use riscv_trace_debugger.Machine.New.Start.{AllBytes}
use riscv_trace_debugger.Main.{Program, TraceError, Connection, read_trace, main_gdb}
use riscv_trace_debugger.Main.Connections.{ServesFrom}
use riscv_trace_debugger.Main.Waves.{Waves, WavesTurn, main_waves}
use riscv_trace_debugger.Main.Start.{
  Args, Ident, MainError, log_failed, elf_unreadable, elf_unparsable, big_endian, trace_unopened,
  trace_failed, trace_unreadable, machine_failed, Opened, viewer_runs, open_trace, Tasks, World,
}

-- The bits of an address.
abbrev pub xlen : Bool → ℕ
xlen is_64 = if is_64 then 64 else 32

module _ {C G : Type 0} (world : World C G) (early : List ℕ) (waves_turns : List WavesTurn)
    (connections : List Connection) (args : Args) where
  -- The steps that come before, each done after the last.
  abbrev pub Logs : Type 0
  Logs = (target : LogTarget) × (init_logging world.log_env ≡ ok target)

  abbrev pub ReadsElf : List ℕ → Type 0
  ReadsElf elf = Logs × (world.files.read args.elf ≡ some elf)

  abbrev pub Parses : List ℕ → Ident → Type 0
  Parses elf ident = ReadsElf elf × (world.parse_ident elf ≡ some ident)

  abbrev pub Opens : List ℕ → Ident → Opened → Type 0
  Opens elf ident opened =
      Parses elf ident
      × (ident.little_endian ≡ true)
      × (open_trace world.files args.ibex_trace args.cheriot_ibex_trace ≡ some opened)

  abbrev pub events : Ident → Opened → Result TraceError (List TraceEvent)
  events ident opened =
      read_trace (xlen ident.is_64) world.ops opened.ibex_lines opened.cheriot_ibex_lines

  abbrev pub ReadsTrace : List ℕ → Ident → Opened → List TraceEvent → Type 0
  ReadsTrace elf ident opened trace =
      Opens elf ident opened × (events ident opened ≡ ok trace) × (opened.whole ≡ true)

  abbrev pub made : List ℕ → Ident → List TraceEvent → Outcome Machine
  made elf ident trace = new world.parse (xlen ident.is_64) world.info elf trace

  abbrev viewer : Option (Waves C)
  viewer =
      Option.map (λ path. main_waves world.watch (world.viewer path) early waves_turns) args.waves

  -- An error is that of a step that cannot be done, after all steps before it; otherwise all of them
  -- are done.
  abbrev pub Comes : Result MainError (Tasks C G) → Type 0
  Comes (err (log_failed e)) = init_logging world.log_env ≡ err e
  Comes (err elf_unreadable) = Logs × (world.files.read args.elf ≡ none)
  Comes (err elf_unparsable) = (elf : List ℕ) × ReadsElf elf × (world.parse_ident elf ≡ none)
  Comes (err big_endian) =
      (elf : List ℕ) × (ident : Ident) × Parses elf ident × (ident.little_endian ≡ false)
  Comes (err trace_unopened) =
      (elf : List ℕ) × (ident : Ident) × Parses elf ident
      × (ident.little_endian ≡ true)
      × (open_trace world.files args.ibex_trace args.cheriot_ibex_trace ≡ none)
  Comes (err (trace_failed e)) =
      (elf : List ℕ) × (ident : Ident) × (opened : Opened) × Opens elf ident opened
      × (events ident opened ≡ err e)
  Comes (err trace_unreadable) =
      (elf : List ℕ) × (ident : Ident) × (opened : Opened) × Opens elf ident opened
      × ((trace : List TraceEvent) × (events ident opened ≡ ok trace))
      × (opened.whole ≡ false)
  Comes (err (machine_failed e)) =
      (elf : List ℕ) × (ident : Ident) × (opened : Opened) × (trace : List TraceEvent) × ReadsTrace
        elf ident opened trace
      × (made elf ident trace ≡ failed e)
  Comes (ok tasks) =
      (elf : List ℕ) × (ident : Ident) × (opened : Opened) × (trace : List TraceEvent) × ReadsTrace
        elf ident opened trace
      × ServesFrom (made elf ident trace) trace tasks.program
      × (tasks.waves ≡ (if viewer_runs (made elf ident trace) connections then viewer else none))

  module _ (bytes : (path : Text) (elf : List ℕ) → world.files.read path ≡ some elf → AllBytes elf)
      (elf : List ℕ) (ident : Ident) (reads : ReadsElf elf)
      (parsed : world.parse_ident elf ≡ some ident) (little : ident.little_endian ≡ true) where
    module _ (opened : Opened) (opens : Opens elf ident opened) (trace : List TraceEvent)
        (read : events ident opened ≡ ok trace) (whole : opened.whole ≡ true) where
      abbrev program : Program G
      program =
          main_gdb world.range (xlen ident.is_64) world.fs world.stub world.parse world.ops
            world.info opened.ibex_lines opened.cheriot_ibex_lines elf connections
