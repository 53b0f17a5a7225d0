-- ===== src/Gdb/Extensions.antt =====
-- gdb/mod.rs, gdb/breakpoints.rs, gdb/host_io.rs, gdb/tracepoints.rs: the `support_` methods, by
-- which gdbstub asks a target for its extensions. The method of an extension that the source does not
-- name is gdbstub's default, which says no.
use riscv_trace_debugger.Prelude.{List, [], ◌∷◌, ◌++◌}

pub data Extension : Type 0 where
  base breakpoints monitor_cmd host_io tracepoints : Extension
  lldb_register_info_override auxv exec_file : Extension
  single_register_access resume : Extension
  reverse_cont reverse_step single_step range_step : Extension
  sw_breakpoint hw_watchpoint : Extension
  open_file close pread pwrite fstat unlink readlink setfs : Extension
  tracepoint_source : Extension

-- `Target`. The method for `lldb_register_info_override` is a comment.
unfoldable pub target_extensions : List Extension
target_extensions = base ∷ breakpoints ∷ monitor_cmd ∷ host_io ∷ tracepoints ∷ []

-- `SingleThreadBase`
unfoldable pub base_extensions : List Extension
base_extensions = single_register_access ∷ resume ∷ []

-- `SingleThreadResume`
unfoldable pub resume_extensions : List Extension
resume_extensions = reverse_cont ∷ reverse_step ∷ single_step ∷ range_step ∷ []

-- `Breakpoints`
unfoldable pub breakpoint_extensions : List Extension
breakpoint_extensions = sw_breakpoint ∷ hw_watchpoint ∷ []

-- `HostIo`
unfoldable pub host_io_extensions : List Extension
host_io_extensions = open_file ∷ close ∷ pread ∷ pwrite ∷ fstat ∷ unlink ∷ readlink ∷ setfs ∷ []

-- `Tracepoints`
unfoldable pub tracepoint_extensions : List Extension
tracepoint_extensions = tracepoint_source ∷ []

-- What an extension is asked for in turn.
abbrev nested : Extension → List Extension
nested e = elim e [
  | base ↦ base_extensions
  | resume ↦ resume_extensions
  | breakpoints ↦ breakpoint_extensions
  | host_io ↦ host_io_extensions
  | tracepoints ↦ tracepoint_extensions
  | _ ↦ []
]

abbrev all_nested : List Extension → List Extension
all_nested [] = []
all_nested (e ∷ es) = nested e ++ all_nested es

-- The extensions of the target with those that they are asked for, which lie two levels deep.
unfoldable pub supported : List Extension
unfolding target_extensions base_extensions resume_extensions breakpoint_extensions
    host_io_extensions tracepoint_extensions
supported =
    target_extensions ++ (all_nested target_extensions ++ all_nested (all_nested target_extensions))
