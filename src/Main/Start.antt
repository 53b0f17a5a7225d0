-- ===== src/Main/Start.antt =====
-- main.rs: from the command line to the two tasks. What the files of the host hold is a parameter,
-- and so is goblin's parser of ELF files.
pub mod Outcome
use mathlib.Core.Option
use riscv_trace_debugger.Prelude.{
  ℕ, ◌*◌, ◌≡◌, refl, Bool, true, false, Option, none, some, List, [], ◌∷◌, Result, ok, err,
  if◌then◌else◌, Option-cases, inl, inr,
}
use riscv_trace_debugger.Fallible.{◌>>=◌, ◌>>◌, ok_or, guard}
use riscv_trace_debugger.Trace.{Text}
use riscv_trace_debugger.IbexTrace.{Opcodes}
use riscv_trace_debugger.Logging.{LogEnv, LogError, init_logging}
use riscv_trace_debugger.Riscv.{RiscvArch, usize_size}
use riscv_trace_debugger.Machine.New.{
  Outcome as Made, done, failed, panicked, Error, ElfHeader, new,
}
use riscv_trace_debugger.Machine.{Machine}
use riscv_trace_debugger.Machine.New.Start.{AllBytes}
use riscv_trace_debugger.Gdb.HostIo.{HostFs}
use riscv_trace_debugger.Main.{
  GdbStub, TraceError, Connection, bind_failed, accept_failed, accepted, Program, choose_arch,
  read_trace, main_gdb,
}
use riscv_trace_debugger.Main.Connections.{ServesFiles, main_gdb-ServesFiles}
use riscv_trace_debugger.Main.Waves.{Watch, ViewerHost, WavesTurn, Waves, main_waves}

-- `Args`: the paths on the command line.
pub record Args : Type 0 where
  pub elf : Text
  pub ibex_trace : Option Text
  pub cheriot_ibex_trace : Option Text
  pub waves : Option Text

-- The lines of a file up to the first that cannot be read, and whether these are all.
pub record Lines : Type 0 where
  pub texts : List Text
  pub whole : Bool

-- The contents of a file, as bytes or as lines; `none` is a file that cannot be read, or opened.
pub record Files : Type 0 where
  pub read : Text → Option (List ℕ)
  pub lines : Text → Option Lines

-- The fields of the ELF header that `main` reads.
pub record Ident : Type 0 where
  pub little_endian : Bool
  pub is_64 : Bool

-- The errors that end the program before it waits for a client.
pub data MainError : Type 0 where
  log_failed : LogError → MainError
  elf_unreadable elf_unparsable big_endian trace_unopened : MainError
  trace_failed : TraceError → MainError
  trace_unreadable : MainError
  machine_failed : Error → MainError

-- The lines of the trace that was named, of one format or the other.
pub record Opened : Type 0 where
  pub ibex_lines : Option (List Text)
  pub cheriot_ibex_lines : Option (List Text)
  pub whole : Bool

abbrev ibex_opened : Lines → Opened
ibex_opened l = record { ibex_lines = some l.texts; cheriot_ibex_lines = none; whole = l.whole }

abbrev cheriot_ibex_opened : Lines → Opened
cheriot_ibex_opened l = record {
  ibex_lines = none;
  cheriot_ibex_lines = some l.texts;
  whole = l.whole;
}

-- The file of the trace is opened. Where not exactly one is named, none is, which is an error of
-- `read_trace`.
unfoldable pub open_trace : Files → Option Text → Option Text → Option Opened
open_trace files (some path) none = Option.map ibex_opened (files.lines path)
open_trace files none (some path) = Option.map cheriot_ibex_opened (files.lines path)
open_trace files none none =
    some (record { ibex_lines = none; cheriot_ibex_lines = none; whole = true })
open_trace files (some a) (some b) =
    some (record { ibex_lines = none; cheriot_ibex_lines = none; whole = true })

abbrev log_result {ℓ} : {A : Type ℓ} → Result LogError A → Result MainError A
log_result (ok a) = ok a
log_result (err e) = err (log_failed e)

abbrev trace_result {ℓ} : {A : Type ℓ} → Result TraceError A → Result MainError A
trace_result (ok a) = ok a
trace_result (err e) = err (trace_failed e)

-- An error of `Machine::new` is one of `main`; a panic is none.
abbrev pub made_result : Made Machine → Result MainError (Unit {0})
made_result (done m) = ok tt
made_result (failed e) = err (machine_failed e)
made_result panicked = ok tt

-- The viewer's task, if there is one that ever runs, and the debugger's.
pub record Tasks (C G : Type 0) : Type 0 where
  pub waves : Option (Waves C)
  pub program : Program G

-- What is given from outside: the libraries and the host.
pub record World (C G : Type 0) : Type 0 where
  pub log_env : LogEnv
  pub files : Files
  pub parse_ident : List ℕ → Option Ident
  pub parse : List ℕ → Option ElfHeader
  pub ops : Opcodes
  pub info : Bool
  pub range : ℕ → ℕ → List ℕ
  pub fs : HostFs
  pub stub : GdbStub G
  pub watch : Watch C
  pub viewer : Text → ViewerHost

-- The runtime has one thread, so that the viewer's task first runs when `main_gdb` waits for a client.
abbrev bound : List Connection → Bool
bound [] = true
bound (bind_failed ∷ connections) = false
bound (accept_failed ∷ connections) = true
bound (accepted turns ∷ connections) = true

unfoldable pub viewer_runs : Made Machine → List Connection → Bool
viewer_runs (done m) connections = bound connections
viewer_runs (failed e) connections = false
viewer_runs panicked connections = false

module _ {C G : Type 0} (world : World C G) (early : List ℕ) (waves_turns : List WavesTurn)
    (connections : List Connection) where
  unfoldable pub main_impl : RiscvArch → Args → List ℕ → Result MainError (Tasks C G)
  unfolding open_trace usize_size main_gdb main_waves read_trace new viewer_runs
  main_impl arch args elf = do
    opened ← ok_or (open_trace world.files args.ibex_trace args.cheriot_ibex_trace) trace_unopened
    let w = 8 * usize_size arch
    -- Lines are parsed as they are read: an error in one comes before a later one that is not read.
    trace ← trace_result (read_trace w world.ops opened.ibex_lines opened.cheriot_ibex_lines)
    guard opened.whole trace_unreadable
    let made = new world.parse w world.info elf trace
    made_result made
    ok (record {
      waves =
          if viewer_runs made connections
          then Option.map (λ path. main_waves world.watch (world.viewer path) early waves_turns)
              args.waves
          else none;
      program =
          main_gdb world.range w world.fs world.stub world.parse world.ops world.info
            opened.ibex_lines opened.cheriot_ibex_lines elf connections;
    })

  unfoldable pub main : Args → Result MainError (Tasks C G)
  unfolding choose_arch init_logging main_impl
  main args = do
    log ← log_result (init_logging world.log_env)
    elf ← ok_or (world.files.read args.elf) elf_unreadable
    ident ← ok_or (world.parse_ident elf) elf_unparsable
    arch ← ok_or (choose_arch ident.little_endian ident.is_64) big_endian
    main_impl arch args elf
