-- ===== src/Gdb/Request/Core.antt =====
-- No request touches what is replayed: the registers, the memory, the trace and the place in it.
use mathlib.Core.Option
use mathlib.Core.Option.{some-injective}
use riscv_trace_debugger.Prelude.{
  ℕ, ◌≤◌, ◌<◌, length, get_elem?, ◌≡◌, refl, subst, sym, ap, Option, none, some, List, [], ◌∷◌,
  Option-cases, Bool-cases, inl, inr, ◌>>=◌, ltb,
}
use riscv_trace_debugger.Fallible.{Result-cases}
use riscv_trace_debugger.Cpu.{Cpu}
use riscv_trace_debugger.Memory.{SimpleMemory, r8}
use riscv_trace_debugger.Trace.{TraceEvent}
use riscv_trace_debugger.BTreeMap
use riscv_trace_debugger.BTreeMap.{BTreeMap}
use riscv_trace_debugger.Str.{codes, starts_with, text_eq}
use riscv_trace_debugger.Str.Utf8.{from_utf8}
use riscv_trace_debugger.Machine.{
  Machine, Definition, Signal, TraceFrame, SourceTracepoint, TracepointAction, registers,
  other_action,
}
use riscv_trace_debugger.Machine.Consistent.{Consistent, SameTrace}
use riscv_trace_debugger.Cpu.Replay.{State, replay, fill}
use riscv_trace_debugger.Gdb.Buffers.{fake_elf_filename}
use riscv_trace_debugger.Gdb.Resume
use riscv_trace_debugger.Gdb.Base
use riscv_trace_debugger.Gdb.SingleRegister
use riscv_trace_debugger.Gdb.Breakpoints
use riscv_trace_debugger.Gdb.Tracepoints
use riscv_trace_debugger.Gdb.HostIo
use riscv_trace_debugger.Gdb.HostIo.{HostFs, HostIoOpenFlags}
use riscv_trace_debugger.Gdb.Request.{Request, handle, handle_all}

pub record Core : Type 0 where
  pub cpu : Cpu
  pub mem : SimpleMemory
  pub trace : List TraceEvent
  pub trace_index : ℕ

abbrev pub core : Machine → Core
core m = record { cpu = m.cpu; mem = m.mem; trace = m.trace; trace_index = m.trace_index }

-- The core together with the tracepoints, which only the requests that define them change.
abbrev pub kept : Machine → Core × BTreeMap Definition
kept m = (core m, m.tracepoints)

-- `Consistent`, as far as it reads the machine.
record Agrees (s : State) (trace : List TraceEvent) (k : Core) : Type 0 where
  same_trace : SameTrace k.trace trace
  in_range : k.trace_index ≤ length k.trace
  at_state :
      ◌≡◌ {A = State} (record { cpu = k.cpu; bytes = r8 k.mem }) (replay s trace k.trace_index)
  filled :
      (i : ℕ) (e : TraceEvent)
      → i < k.trace_index
      → get_elem? k.trace i ≡ some e
      → e ≡ fill (replay s trace i) e

Consistent-Agrees :
    {s : State} {trace : List TraceEvent} (m : Machine)
    → Consistent s trace m
    → Agrees s trace (core m)
Consistent-Agrees m c = record {
  same_trace = c.same_trace;
  in_range = c.in_range;
  at_state = c.at_state;
  filled = c.filled;
}

pub Consistent-core :
    {s : State} {trace : List TraceEvent} (m m' : Machine)
    → core m' ≡ core m
    → Consistent s trace m
    → Consistent s trace m'
Consistent-core {s} {trace} m m' e c = record {
  same_trace = a.same_trace;
  in_range = a.in_range;
  at_state = a.at_state;
  filled = a.filled;
}
  where
    a : Agrees s trace (core m')
    a = subst (Agrees s trace) (sym e) (Consistent-Agrees m c)

pub remove_sw_breakpoint-kept :
    (m : Machine) (addr : ℕ) → kept (Breakpoints.remove_sw_breakpoint m addr).0 ≡ kept m
unfolding Breakpoints.remove_sw_breakpoint
remove_sw_breakpoint-kept m addr =
    elim (Option-cases (Breakpoints.remove_first addr m.breakpoints)) [
      | inl e ↦ rw (e, Breakpoints.remove_sw_breakpoint) refl
      | inr (rest, e) ↦ rw (e, Breakpoints.remove_sw_breakpoint) refl
    ]

create_continue-core :
    (m : Machine) (tp : ℕ) (action : TracepointAction)
    → core (Tracepoints.tracepoint_create_continue m tp action).0 ≡ core m
unfolding Tracepoints.tracepoint_create_continue
create_continue-core m tp other_action = refl
create_continue-core m tp (registers mask) = elim (Option-cases (BTreeMap.get m.tracepoints tp)) [
  | inl e ↦ rw (e, Tracepoints.tracepoint_create_continue) refl
  | inr (definition, e) ↦ rw (e, Tracepoints.tracepoint_create_continue) refl
]

select_found-kept :
    (m : Machine) (found : Option (ℕ × TraceFrame))
    → kept (Tracepoints.select_found m found).0 ≡ kept m
unfolding Tracepoints.select_found
select_found-kept m none = refl
select_found-kept m (some (n, frame)) = refl

pub select_frame-kept :
    (m : Machine) (request : Tracepoints.FrameRequest)
    → kept (Tracepoints.select_frame m request).0 ≡ kept m
unfolding Tracepoints.select_frame
select_frame-kept m request = elim (Option-cases (Tracepoints.find_frame m request)) [
  | inl e ↦ rw (e, Tracepoints.select_frame) refl
  | inr (found, e) ↦ rw (e, Tracepoints.select_frame) (select_found-kept m found)
]

-- What the handlers of files do to the machine, whatever the host says.
pub open_file-kept :
    (fs : HostFs) (m : Machine) (filename : List ℕ) (flags : HostIoOpenFlags)
    → kept (HostIo.open_file fs m filename flags).0 ≡ kept m
unfolding HostIo.open_file
open_file-kept fs m filename flags = elim (Bool-cases (starts_with (codes "/proc") filename)) [
  | inl proc ↦ rw (proc, HostIo.open_file) refl
  | inr file ↦ elim (Bool-cases (text_eq filename fake_elf_filename)) [
    | inl elf ↦ rw (file, elf, HostIo.open_file) refl
    | inr other ↦ elim (Option-cases (from_utf8 filename)) [
      | inl e ↦ rw (file, other, e, HostIo.open_file) refl
      | inr (path, e) ↦ elim (Result-cases (fs.open_with (HostIo.open_options flags) path)) [
        | inl (f, g) ↦ rw (file, other, e, g, HostIo.open_file) refl
        | inr (f, g) ↦ rw (file, other, e, g, HostIo.open_file) refl
      ]
    ]
  ]
]

pub close-kept : (fs : HostFs) (m : Machine) (fd : ℕ) → kept (HostIo.close fs m fd).0 ≡ kept m
unfolding HostIo.close
close-kept fs m fd = elim (Bool-cases (ltb fd HostIo.fd_reserved)) [
  | inl reserved ↦ rw (reserved, HostIo.close) refl
  | inr used ↦ elim (Option-cases (HostIo.file_at m.files fd)) [
    | inl e ↦ rw (used, e, HostIo.close) refl
    | inr (file, e) ↦ rw (used, e, HostIo.close) refl
  ]
]

pub remove_hw_watchpoint-kept :
    (range : ℕ → ℕ → List ℕ) (w : ℕ) (m : Machine) (addr len : ℕ) (kind : Breakpoints.WatchKind)
    → kept (Breakpoints.remove_hw_watchpoint range w m addr len kind).0 ≡ kept m
unfolding Breakpoints.remove_hw_watchpoint
remove_hw_watchpoint-kept range w m addr len kind = refl

pub single_step-kept :
    (m : Machine) (signal : Option Signal) → kept (Resume.single_step m signal).0 ≡ kept m
unfolding Resume.single_step
single_step-kept m none = refl
single_step-kept m (some signal) = refl

pub resume-kept : (m : Machine) (signal : Option Signal) → kept (Resume.resume m signal).0 ≡ kept m
unfolding Resume.resume
resume-kept m none = refl
resume-kept m (some signal) = refl

-- What a handler that may panic leaves of the machine.
abbrev pub KeepsCore : Core → Option Machine → Type 0
KeepsCore k none = Unit
KeepsCore k (some m') = core m' ≡ k

KeepsCore-bind :
    (k : Core) (o : Option Machine) (f : Machine → Option Machine)
    → KeepsCore k o
    → ((m : Machine) → core m ≡ k → KeepsCore k (f m))
    → KeepsCore k (o >>= f)
KeepsCore-bind k none f h g = tt
KeepsCore-bind k (some m) f h g = g m h

attach_source-core :
    (m : Machine) (src : SourceTracepoint)
    → KeepsCore (core m) (Option.map (λ r. r.0) (Tracepoints.tracepoint_attach_source m src))
unfolding Tracepoints.tracepoint_attach_source
attach_source-core m src = elim (Option-cases (BTreeMap.get m.tracepoints src.number)) [
  | inl e ↦ rw (e, Tracepoints.tracepoint_attach_source) tt
  | inr (definition, e) ↦ rw (e, Tracepoints.tracepoint_attach_source) refl
]

module _ (range : ℕ → ℕ → List ℕ) (w : ℕ) (fs : HostFs) where
  handle-KeepsCore : (r : Request) (m : Machine) → KeepsCore (core m) (handle range w fs r m)
  unfolding handle Resume.resume_range_step Resume.reverse_cont Resume.reverse_step
      Breakpoints.add_sw_breakpoint Breakpoints.add_hw_watchpoint Tracepoints.tracepoints_init
      Tracepoints.tracepoint_create_begin Tracepoints.tracepoint_create_complete
      Tracepoints.trace_experiment_start Tracepoints.trace_experiment_stop HostIo.setfs
      Base.write_registers Base.write_addrs SingleRegister.write_register
  handle-KeepsCore (Request.resume signal) m = ap (λ k. k.0) (resume-kept m signal)
  handle-KeepsCore (Request.single_step signal) m = ap (λ k. k.0) (single_step-kept m signal)
  handle-KeepsCore (Request.range_step start end) m = refl
  handle-KeepsCore Request.reverse_cont m = refl
  handle-KeepsCore Request.reverse_step m = refl
  handle-KeepsCore (Request.add_sw_breakpoint addr) m = refl
  handle-KeepsCore (Request.remove_sw_breakpoint addr) m =
      ap (λ k. k.0) (remove_sw_breakpoint-kept m addr)
  handle-KeepsCore (Request.add_hw_watchpoint addr len kind) m = refl
  handle-KeepsCore (Request.remove_hw_watchpoint addr len kind) m =
      ap (λ k. k.0) (remove_hw_watchpoint-kept range w m addr len kind)
  handle-KeepsCore Request.tracepoints_init m = refl
  handle-KeepsCore (Request.create_begin tp) m = refl
  handle-KeepsCore (Request.create_continue tp action) m = create_continue-core m tp action
  handle-KeepsCore (Request.create_complete tp) m = refl
  handle-KeepsCore (Request.attach_source src) m = attach_source-core m src
  handle-KeepsCore (Request.select_frame frame) m = ap (λ k. k.0) (select_frame-kept m frame)
  handle-KeepsCore Request.experiment_start m = refl
  handle-KeepsCore Request.experiment_stop m = refl
  handle-KeepsCore (Request.open_file filename flags) m =
      ap (λ k. k.0) (open_file-kept fs m filename flags)
  handle-KeepsCore (Request.close fd) m = ap (λ k. k.0) (close-kept fs m fd)
  handle-KeepsCore (Request.setfs kind) m = refl
  handle-KeepsCore (Request.write_registers regs) m = refl
  handle-KeepsCore (Request.write_addrs addr bytes) m = refl
  handle-KeepsCore (Request.write_register id val) m = refl

  handle_all-KeepsCore :
      (rs : List Request) (m : Machine) → KeepsCore (core m) (handle_all range w fs rs m)
  unfolding handle_all
  handle_all-KeepsCore [] m = refl
  handle_all-KeepsCore (r ∷ rs) m =
      KeepsCore-bind (core m) (handle range w fs r m) _ (handle-KeepsCore r m) (λ m1 e.
        subst (λ k. KeepsCore k (handle_all range w fs rs m1)) e (handle_all-KeepsCore rs m1))

  -- No sequence of requests changes what is replayed.
  pub handle_all-core :
      (rs : List Request) (m m' : Machine) → handle_all range w fs rs m ≡ some m' → core m' ≡ core m
  handle_all-core rs m m' e = subst (KeepsCore (core m)) e (handle_all-KeepsCore rs m)
