-- ===== src/Cpu.antt =====
-- cpu.rs: the registers, and one trace event done or undone. `none` is a panic, which an index past
-- the end of `xregs` makes.
pub mod Replay
pub mod Events
pub mod Refine
pub mod Undo
pub mod Sniffed
pub mod RoundTrip
use riscv_trace_debugger.Prelude.{ℕ, Option, none, some, List, ◌>>=◌, get_elem?, set, replicate, []}
use mathlib.Core.Option
use riscv_trace_debugger.HashMap.{HashMap}
use riscv_trace_debugger.Memory.{Memory}
use riscv_trace_debugger.Trace.{Data, u8, u16, u32, u64, u128, XRegWrite, MemWrite, TraceEvent}

pub data Privilege : Type 0 where
  machine supervisor user : Privilege

pub record Cpu : Type 0 where
  pub pc : ℕ
  pub privilege : Privilege
  pub xregs : List ℕ
  pub fregs : List ℕ
  pub csrs : HashMap ℕ

abbrev pub default : Cpu
default = record {
  pc = 0;
  privilege = machine;
  xregs = replicate 32 0;
  fregs = replicate 32 0;
  csrs = [];
}

-- `self.xregs[index] = value`
unfoldable pub put_xreg : Cpu → ℕ → ℕ → Option Cpu
put_xreg cpu index value =
    Option.map (λ _. record cpu { xregs = set cpu.xregs index value }) (get_elem? cpu.xregs index)

unfoldable pub write_xreg : Cpu → Option XRegWrite → Option (Cpu × Option XRegWrite)
unfolding put_xreg
write_xreg cpu none = some (cpu, none)
write_xreg cpu (some xwrite) = do
  prev ← get_elem? cpu.xregs xwrite.index
  cpu' ← put_xreg cpu xwrite.index xwrite.value
  some (cpu', some (record xwrite { prev_value = some prev }))

unfoldable pub undo_xreg : Cpu → Option XRegWrite → Option Cpu
unfolding put_xreg
undo_xreg cpu none = some cpu
undo_xreg cpu (some xwrite) = elim xwrite.prev_value [
  | none ↦ some cpu
  | some prev_val ↦ put_xreg cpu xwrite.index prev_val
]

module _ {M : Type 0} (mem : Memory M) where
  -- The `match store.value` of `step`.
  store_data : ℕ → Data → M → M × Data
  store_data addr (u8 val) m = let (prev, m') = mem.r8 addr m in (mem.w8 addr val m', u8 prev)
  store_data addr (u16 val) m = let (prev, m') = mem.r16 addr m in (mem.w16 addr val m', u16 prev)
  store_data addr (u32 val) m = let (prev, m') = mem.r32 addr m in (mem.w32 addr val m', u32 prev)
  store_data addr (u64 val) m = let (prev, m') = mem.r64 addr m in (mem.w64 addr val m', u64 prev)
  store_data addr (u128 val) m =
      let (prev, m') = mem.r128 addr m in (mem.w128 addr val m', u128 prev)

  -- The `match prev_val` of `step_undo`.
  undo_data : ℕ → Data → M → M
  undo_data addr (u8 val) m = mem.w8 addr val m
  undo_data addr (u16 val) m = mem.w16 addr val m
  undo_data addr (u32 val) m = mem.w32 addr val m
  undo_data addr (u64 val) m = mem.w64 addr val m
  undo_data addr (u128 val) m = mem.w128 addr val m

  write_store : M → Option MemWrite → M × Option MemWrite
  unfolding store_data
  write_store m none = (m, none)
  write_store m (some store) =
      let (m', prev) = store_data store.phys_addr store.value m in
      (m', some (record store { prev_value = some prev }))

  undo_store : M → Option MemWrite → M
  unfolding undo_data
  undo_store m none = m
  undo_store m (some store) = elim store.prev_value [
    | none ↦ m
    | some prev_val ↦ undo_data store.phys_addr prev_val m
  ]

  -- The event comes back with the previous values filled in.
  unfoldable pub step : Cpu → M → TraceEvent → Option (Cpu × M × TraceEvent)
  unfolding write_xreg write_store
  step cpu m event = do
    (cpu', xwrite) ← write_xreg (record cpu { pc = event.pc }) event.xwrite
    let (m', store) = write_store m event.store
    some (cpu', m', record event { xwrite = xwrite; store = store })

  unfoldable pub step_undo : Cpu → M → TraceEvent → Option TraceEvent → Option (Cpu × M)
  unfolding undo_xreg undo_store
  step_undo cpu m event prev_event = do
    let cpu' : Cpu = elim prev_event [ none ↦ cpu | some prev ↦ record cpu { pc = prev.pc } ]
    cpu'' ← undo_xreg cpu' event.xwrite
    some (cpu'', undo_store m event.store)
