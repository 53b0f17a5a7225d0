-- ===== src/Logging.antt =====
-- logging.rs: where the log goes. The filter and the colours by the environment are env_logger's.
use riscv_trace_debugger.Prelude.{
  ℕ, Bool, true, false, Option, none, some, [], ◌∷◌, ◌++◌, Result, ok, err,
}
use riscv_trace_debugger.Trace.{Text}
use riscv_trace_debugger.Str.Display.{digits}

-- The variable RTD_LOG_FILE, if it is set to a text, the process ID, and whether a file can be
-- created.
pub record LogEnv : Type 0 where
  pub log_file : Option Text
  pub pid : ℕ
  pub create : Text → Bool

pub data LogTarget : Type 0 where
  standard : LogTarget
  file : Text → LogTarget

-- The file whose opening failed.
pub data LogError : Type 0 where
  opening : Text → LogError

abbrev created : Bool → Text → Result LogError LogTarget
created true filename = ok (file filename)
created false filename = err (opening filename)

-- Our process ID is appended.
unfoldable pub init_logging : LogEnv → Result LogError LogTarget
unfolding digits
init_logging env = elim env.log_file [
  | none ↦ ok standard
  | some log_file ↦
      let filename = log_file ++ b'.' ∷ digits 10 32 env.pid [] in
      created (env.create filename) filename
]
