-- ===== src/Tests/Sample.antt =====
-- A load of x1, and then a store of two bytes, the second of which wraps to address 0.
use riscv_trace_debugger.Prelude.{
  ℕ, zero, suc, ◌-◌, ◌^◌, ◌≡◌, refl, ap, subst, false, none, some, List, [], ◌∷◌, arith, get_elem?,
}
use mathlib.Core.Option.{some-injective}
use riscv_trace_debugger.Memory.{default, r8, IsBytes}
use riscv_trace_debugger.HashMap.{get}
use riscv_trace_debugger.Trace.{TraceEvent, u16}
use riscv_trace_debugger.Cpu
use riscv_trace_debugger.Cpu.{Cpu}
use riscv_trace_debugger.Cpu.Replay.{State, replay, IsValid, IsSound}
use riscv_trace_debugger.Machine.{Machine, continue, forwards}
use riscv_trace_debugger.Machine.Consistent.{state_of, IsStart, Consistent}

abbrev pub load_event : TraceEvent
load_event = record {
  time = 10;
  cycle = 1;
  pc = 4;
  trap = false;
  instruction = some 3;
  assembly_mnemonic = [];
  assembly_args = [];
  xwrite = some (record { index = 1; value = 7; prev_value = none });
  store = none;
}

abbrev pub store_event : TraceEvent
store_event = record {
  time = 20;
  cycle = 2;
  pc = 8;
  trap = false;
  instruction = some 35;
  assembly_mnemonic = [];
  assembly_args = [];
  xwrite = none;
  store = some (record { phys_addr = 2 ^ 64 - 1; value = u16 0x1234; prev_value = none });
}

abbrev pub sample : List TraceEvent
sample = load_event ∷ store_event ∷ []

abbrev pub cpu : Cpu
cpu = record Cpu.default { pc = 4 }

abbrev pub machine : Machine
machine = record {
  exec_mode = continue;
  exec_dir = forwards;
  cpu = cpu;
  mem = default;
  trace = sample;
  trace_index = 0;
  elf = [];
  entry = 0;
  watchpoints = [];
  breakpoints = 8 ∷ [];
  files = [];
  tracepoints = [];
  traceframes = [];
  tracing = false;
  selected_frame = none;
  send_time = [];
}

abbrev pub start_state : State
start_state = state_of machine

pub default-IsBytes : IsBytes (r8 default)
unfolding r8 get
default-IsBytes x = omega arith

pub start-IsSound : IsSound start_state
start-IsSound = record { registers = refl; bytes = default-IsBytes }

pub load-IsValid : IsValid load_event
load-IsValid = record { xwrite = omega arith; store = tt }

pub store-IsValid : IsValid store_event
store-IsValid = record { xwrite = tt; store = (omega arith, omega arith) }

pub sample-IsValid : (i : ℕ) (e : TraceEvent) → get_elem? sample i ≡ some e → IsValid e
sample-IsValid zero e h = subst IsValid (some-injective _ _ h) load-IsValid
sample-IsValid (suc zero) e h = subst IsValid (some-injective _ _ h) store-IsValid
sample-IsValid (suc (suc i)) e h = cc

pub sample-IsStart : IsStart start_state sample
sample-IsStart = record {
  sound = start-IsSound;
  first_pc = λ e h. ap (λ (e : TraceEvent). e.pc) (some-injective load_event e h);
  valid = sample-IsValid;
}

pub machine-Consistent : Consistent start_state sample machine
machine-Consistent = record {
  same_trace = refl;
  in_range = omega arith;
  at_state = unfold replay in refl;
  filled = λ i e h at. absurd (omega arith);
}
