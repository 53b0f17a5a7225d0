-- ===== src/Gdb/MonitorCmd.antt =====
-- gdb/monitor_cmd.rs: the command is answered by a line on the console.
use riscv_trace_debugger.Prelude.{ℕ, none, some, List, [], ◌++◌, if◌then◌else◌}
use riscv_trace_debugger.Trace.{Text}
use riscv_trace_debugger.Str.{codes, text_eq}
use riscv_trace_debugger.Str.Utf8.{from_utf8}

-- The `match` on the text.
unfoldable pub answer : Text → Text
answer cmd =
    if text_eq cmd []
    then codes "Sorry, didn't catch that. Try `monitor ping`!"
    else if text_eq cmd (codes "ping")
    then codes "pong!"
    else codes "I don't know how to handle '" ++ cmd ++ codes "'"

-- The line that is written. The machine stays as it is, and the result is always `Ok(())`.
unfoldable pub handle_monitor_cmd : List ℕ → Text
unfolding answer
handle_monitor_cmd cmd = elim (from_utf8 cmd) [
  | none ↦ codes "command must be valid UTF-8"
  | some cmd' ↦ answer cmd'
]
