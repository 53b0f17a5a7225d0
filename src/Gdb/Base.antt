-- ===== src/Gdb/Base.antt =====
-- gdb/mod.rs: the registers and the memory of the machine as a whole. `none` is a panic. A `Usize`
-- has `w` bits.
pub mod Memory
use mathlib.Core.Option
use riscv_trace_debugger.Prelude.{
  ℕ, ◌+◌, ◌%◌, ◌^◌, Option, none, some, List, [], ◌∷◌, length, get_elem?, Result, ok, err, ◌>>=◌,
}
use riscv_trace_debugger.Memory.{SimpleMemory, r8}
use riscv_trace_debugger.Cpu.{Cpu}
use riscv_trace_debugger.Machine.{Machine}
use riscv_trace_debugger.Gdb.Tracepoints.{TargetError, non_fatal, Handled}

-- The registers of the selected frame, or else of the machine.
unfoldable pub registers_of : Machine → Cpu
registers_of m =
    Option.get_or
      (Option.map (λ frame. frame.snapshot) (m.selected_frame >>= get_elem? m.traceframes)) m.cpu

-- They are found, and then a `todo!()` panics.
unfoldable pub read_registers : Machine → Option (Handled Cpu)
unfolding registers_of
read_registers m = let cpu = registers_of m in none

unfoldable pub write_registers : Machine → List ℕ → Handled (Unit {0})
write_registers m regs = (m, err non_fatal)

-- The loop over the buffer.
unfoldable pub read_bytes : ℕ → SimpleMemory → ℕ → List ℕ → List ℕ
read_bytes w mem addr [] = []
read_bytes w mem addr (old ∷ buf) = r8 mem addr ∷ read_bytes w mem ((addr + 1) % 2 ^ w) buf

-- The buffer afterwards, and how many bytes of it were read.
unfoldable pub read_addrs : ℕ → Machine → ℕ → List ℕ → List ℕ × Result TargetError ℕ
unfolding read_bytes
read_addrs w m start_addr buf = elim m.selected_frame [
  | some frame ↦ (buf, ok 0)
  | none ↦ (read_bytes w m.mem start_addr buf, ok (length buf))
]

unfoldable pub write_addrs : Machine → ℕ → List ℕ → Handled (Unit {0})
write_addrs m start_addr bytes = (m, err non_fatal)
