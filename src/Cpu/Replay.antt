-- ===== src/Cpu/Replay.antt =====
-- What one trace event means: the registers and the bytes of the memory after it, and the values
-- from before that belong in it. `replay` is the state after the first `n` events.
use riscv_trace_debugger.Prelude.{
  ℕ, zero, suc, ◌^◌, ◌<◌, ◌≡◌, Option, none, some, List, [], ◌∷◌, get_elem?, length, set,
}
use riscv_trace_debugger.Memory.{
  Bytes, IsBytes, u64_mod, Width, b8, b16, b32, b64, b128, size, le_value, put,
}
use riscv_trace_debugger.Trace.{Data, u8, u16, u32, u64, u128, XRegWrite, MemWrite, TraceEvent}
use riscv_trace_debugger.Cpu.{Cpu}

abbrev pub width : Data → Width
width (u8 v) = b8
width (u16 v) = b16
width (u32 v) = b32
width (u64 v) = b64
width (u128 v) = b128

abbrev pub payload : Data → ℕ
payload (u8 v) = v
payload (u16 v) = v
payload (u32 v) = v
payload (u64 v) = v
payload (u128 v) = v

abbrev pub with_payload : Data → ℕ → Data
with_payload (u8 _) v = u8 v
with_payload (u16 _) v = u16 v
with_payload (u32 _) v = u32 v
with_payload (u64 _) v = u64 v
with_payload (u128 _) v = u128 v

pub record State : Type 0 where
  pub cpu : Cpu
  pub bytes : Bytes

abbrev pub put_write : Option XRegWrite → List ℕ → List ℕ
put_write none xs = xs
put_write (some w) xs = set xs w.index w.value

abbrev pub put_store : Option MemWrite → Bytes → Bytes
put_store none f = f
put_store (some st) f = put (size (width st.value)) (payload st.value) f st.phys_addr

unfoldable pub apply : TraceEvent → State → State
apply e s = record {
  cpu = record s.cpu { pc = e.pc; xregs = put_write e.xwrite s.cpu.xregs };
  bytes = put_store e.store s.bytes;
}

abbrev pub fill_write : List ℕ → Option XRegWrite → Option XRegWrite
fill_write xs none = none
fill_write xs (some w) = some (record w { prev_value = get_elem? xs w.index })

-- The stored value as it was, at the width of the store.
abbrev pub old_data : Bytes → MemWrite → Data
old_data f st = with_payload st.value (le_value (size (width st.value)) f st.phys_addr)

abbrev pub fill_store : Bytes → Option MemWrite → Option MemWrite
fill_store f none = none
fill_store f (some st) = some (record st { prev_value = some (old_data f st) })

-- The event with the values that it overwrites in state `s`.
unfoldable pub fill : State → TraceEvent → TraceEvent
fill s e = record e { xwrite = fill_write s.cpu.xregs e.xwrite; store = fill_store s.bytes e.store }

-- The event without any values from before.
abbrev pub clear_write : Option XRegWrite → Option XRegWrite
clear_write none = none
clear_write (some w) = some (record w { prev_value = none })

abbrev pub clear_store : Option MemWrite → Option MemWrite
clear_store none = none
clear_store (some st) = some (record st { prev_value = none })

unfoldable pub clear : TraceEvent → TraceEvent
clear e = record e { xwrite = clear_write e.xwrite; store = clear_store e.store }

unfoldable pub replay : State → List TraceEvent → ℕ → State
replay s tr zero = s
replay s [] (suc n) = s
replay s (e ∷ tr) (suc n) = replay (apply e s) tr n

-- What a step needs of an event: a register that exists, an address and a value in range.
abbrev pub ValidWrite : Option XRegWrite → Type 0
ValidWrite none = Unit
ValidWrite (some w) = w.index < 32

abbrev pub ValidStore : Option MemWrite → Type 0
ValidStore none = Unit
ValidStore (some st) = (st.phys_addr < u64_mod) × (payload st.value < 256 ^ size (width st.value))

pub record IsValid (e : TraceEvent) : Type 0 where
  pub xwrite : ValidWrite e.xwrite
  pub store : ValidStore e.store

pub record IsSound (s : State) : Type 0 where
  pub registers : length s.cpu.xregs ≡ 32
  pub bytes : IsBytes s.bytes
