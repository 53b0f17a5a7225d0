-- ===== src/Lib.antt =====
-- A model of the RISC-V trace debugger, a server for gdb and lldb that replays the instruction trace
-- of a RISC-V program, forwards and backwards, on the memory of its ELF file.
--
-- The parts of the program and the files that model them. Paths of the program are from the root of
-- the repository. Functions and types keep their names.
--
-- * `src/memory.rs`, Memory: the trait `Memory` (Memory/Access), `SimpleMemory` with its accesses of
--   8 to 128 bits (Memory/Simple/Defs), the contract that a memory of little-endian bytes keeps
--   (`Lawful`, in Memory/Laws, over Memory/LittleEndian), and its proof for `SimpleMemory`
--   (Memory/Simple with its children, Memory/Combine).
-- * `src/mem_sniffer.rs`, MemSniffer: the memory that `Machine::step` puts between the registers and
--   `SimpleMemory` to be told of accesses.
-- * `src/trace.rs`, Trace: the events of a trace. Trace/Typed says that the numbers of an event are
--   in the range of their types.
-- * `src/ibex_trace.rs` and `src/cheriot_ibex_trace.rs`, IbexTrace and CheriotIbexTrace: the readers
--   of the two trace formats, with every error that they report. IbexTrace/Valid and
--   CheriotIbexTrace/Valid, over CheriotIbexTrace/Fits, are about the events that they return, the two
--   Counted about the accesses of a line. IbexTrace/Print prints an event as a line,
--   IbexTrace/RoundTrip reads it, and IbexTrace/Traces does so for whole files;
--   CheriotIbexTrace/Print, with CheriotIbexTrace/Values, CheriotIbexTrace/Parts,
--   CheriotIbexTrace/RoundTrip and CheriotIbexTrace/Traces, does so in every form of the other format.
-- * `src/cpu.rs`, Cpu: the registers, and an event done (`step`) and undone (`step_undo`) over any
--   memory. Cpu/Replay is the specification: the state of the machine after the first events of a
--   trace, as a fold that knows nothing of undoing. Cpu/Refine, Cpu/Undo and Cpu/RoundTrip relate
--   the two, Cpu/Sniffed takes the sniffer away.
-- * `src/machine.rs`, Machine: the state (Machine/State), `Machine::new` (Machine/New, with its
--   start in Machine/New/Start and the memory that it loads in Machine/New/Image), `Machine::step`
--   (Machine/Step) and `Machine::run` (Machine/Run). Machine/Consistent says what it means that a machine agrees with the replay, Machine/Moves is
--   about one step, Machine/Runs about whole runs.
-- * `src/riscv`, Riscv: the architectures (`src/riscv/mod.rs`), the numbers of registers (Riscv/Id,
--   `src/riscv/reg/id.rs`), the core registers as they are sent to a debugger (Riscv/Reg,
--   `src/riscv/reg/riscv.rs`, with Riscv/Reg/RoundTrip).
-- * `src/gdb`, Gdb: what a debugger asks of the machine. Gdb/Base has registers and memory as a whole
--   and Gdb/Buffers the helpers for buffers, both of `src/gdb/mod.rs`; Gdb/Resume the requests of
--   `src/gdb/mod.rs`, `src/gdb/reverse.rs` and the two `src/gdb/single_thread_*.rs` that set mode and
--   direction; Gdb/Breakpoints `src/gdb/breakpoints.rs`; Gdb/Tracepoints `src/gdb/tracepoints.rs`,
--   with children for the enumeration, its order and the choice of frames;
--   Gdb/SingleRegister `src/gdb/single_register_access.rs`; Gdb/HostIo `src/gdb/host_io.rs`, the table
--   of open files in Gdb/HostIo/Table; Gdb/Auxv `src/gdb/auxv.rs`; Gdb/MonitorCmd
--   `src/gdb/monitor_cmd.rs`; Gdb/LldbRegisterInfo `src/gdb/lldb_register_info_override.rs`. The
--   request of `src/gdb/exec_file.rs` is in Gdb/Buffers. Gdb/Request puts all requests that can change
--   the machine together, and Gdb/Request/Core says what none of them touches. Gdb/Extensions has the
--   `support_` methods of `src/gdb/mod.rs`, `src/gdb/breakpoints.rs`, `src/gdb/host_io.rs` and
--   `src/gdb/tracepoints.rs`, by which gdbstub is told which requests the machine takes.
-- * `src/buffered_connection.rs`, BufferedConnection.
-- * `src/main.rs`, Main: the choice of the architecture and of the reader, and the loop that serves a
--   debugger, round by round and connection by connection. Main/Serving is about one session, from the
--   files to the last round, Main/Sent about the bytes that it sends, by a record of what gdbstub has
--   written (Main/Sent/Recorded), Main/Connections about all connections. Main/Waves is `main_waves`, the task that shows the time in a waveform viewer, and
--   Main/Waves/Delivery, over Main/Waves/Writes, what arrives there. Main/Start is `main` itself and
--   `main_impl`, from the command line to the two tasks, and Main/Start/Outcome what it comes to.
-- * `src/logging.rs`, Logging: where the log goes.
-- * HashMap and BTreeMap stand for the maps of the standard library, as association lists, Str for its
--   functions on text (Str/Display prints numbers, Str/Split is about texts that were joined,
--   Str/Registers about the names of registers) and Fallible for `?` on `Result`. LeBytes is the trait
--   of that name of gdbstub.
--
-- The trace is read and the machine made before a client connects. In each round of the loop of
-- `main`, what waits is sent, and then gdbstub is given a byte of the client or a stop of the machine,
-- and makes its requests. A request sets mode, direction, breakpoints or tracepoints in the machine;
-- the main loop then calls `run`, which calls `step` until there is a stop to report; `step` does or
-- undoes the event at the index, over the sniffed memory, and writes the values that it replaced back
-- into the trace, where undoing finds them. `run` sends the time of the machine on a channel, from
-- which the task for the viewer takes it.
--
-- How the program is modelled:
--
-- * `&mut self` is a state that is passed in and out. A panic is `none` or `panicked`.
-- * Machine integers are natural numbers. An address is below 2 ^ 64 and `addr + n` wraps, as it does
--   in a release build; `Usize` has `w` bits where its width matters.
-- * The runtime has one thread: the task for the viewer first runs when `main_gdb` waits for a client.
--   It does not run where the program has ended before, by an error or a panic. The lines of a trace
--   are given up to the first that cannot be read.
-- * `run` is a future. It is given a number of polls: it goes on at a yield as long as some are left
--   and is dropped when there are none. Its loops are given fuel, one for each round; one for each
--   event of the trace and one more are enough, since a round either stops or moves by an event.
--   `cycles` is an `i32` that wraps.
-- * The times that `run` sends to the waveform viewer are kept in a list. What the viewer's task is
--   given is any interleaving of times sent, data read, and rounds of the channel.
-- * A text is the list of its code points, a buffer of bytes the list of its bytes.
-- * These are parameters. The ELF parser of goblin is a function from the bytes to the parts of the
--   headers that `Machine::new` reads. `range` is that of num_iter. The masks and matches of
--   riscv_opcodes are a record. `LeBytes`, the conversion of integers of gdbstub,
--   is a record of operations, and the theorems that need it assume what its documentation says.
--   `HostFs` is what the file system of the host answers. `GdbStub` is the state machine of gdbstub:
--   what it does next, which requests it makes and what it writes, as functions of the machine and
--   what it is told. A `Turn` is what the sockets and the scheduler do in a round. `Watch` is the channel
--   of tokio, and `IsWatch` what its documentation says. `ViewerHost` is what starting the viewer comes
--   to, and a `WavesTurn` what its task meets. `World` has all of these for the whole program, with the
--   contents of the files and the environment of the log. It is a parameter, too, whether the log takes
--   `info!`.
-- * The other types of gdbstub are modelled by the constructors and fields that the program reads.
--
-- Not modelled: the parsing of the command line, which is clap's; the listening sockets, of which
-- only the outcome is an event of the host (a `Connection`: binding or accepting fails, or a client
-- comes); the filter and the colours of the log, which are
-- env_logger's; the target descriptions, which are data. `tracepoint_enumerate_state` hands gdbstub an
-- object of its own, which is no part of the machine here.
pub mod Prelude
pub mod Fallible
pub mod Str
pub mod LeBytes
pub mod HashMap
pub mod Memory
pub mod MemSniffer
pub mod Trace
pub mod IbexTrace
pub mod CheriotIbexTrace
pub mod Cpu
pub mod BTreeMap
pub mod Machine
pub mod Riscv
pub mod Logging
pub mod Gdb
pub mod BufferedConnection
pub mod Main
mod Tests
