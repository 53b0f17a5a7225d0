-- ===== src/Gdb.antt =====
-- gdb/: the operations that a debugger asks of the machine, through gdbstub.
pub mod Resume
pub mod Buffers
pub mod Breakpoints
pub mod Tracepoints
pub mod Base
pub mod Auxv
pub mod MonitorCmd
pub mod HostIo
pub mod SingleRegister
pub mod LldbRegisterInfo
pub mod Request
pub mod Extensions
