-- ===== src/Memory/Simple/Defs.antt =====
-- `SimpleMemory` of memory.rs: a hash map of bytes.
use riscv_trace_debugger.Prelude.{ℕ, ◌+◌, ◌*◌, ◌/◌, ◌%◌, ◌^◌, [], bit_or}
use mathlib.Core.Option
use riscv_trace_debugger.HashMap.{HashMap, get, insert}
use riscv_trace_debugger.Memory.Access.{Memory}

pub record SimpleMemory : Type 0 where
  pub map : HashMap ℕ

abbrev pub default : SimpleMemory
default = record { map = [] }

-- `addr + n` on `u64`.
offset : ℕ → ℕ → ℕ
offset addr n = (addr + n) % 2 ^ 64

unfoldable pub r8 : SimpleMemory → ℕ → ℕ
r8 m addr = Option.get_or (get m.map addr) 0

unfoldable pub r16 : SimpleMemory → ℕ → ℕ
unfolding offset
r16 m addr = bit_or (r8 m addr) (r8 m (offset addr 1) * 2 ^ 8 % 2 ^ 16)

unfoldable pub r32 : SimpleMemory → ℕ → ℕ
unfolding offset
r32 m addr = bit_or (r16 m addr) (r16 m (offset addr 2) * 2 ^ 16 % 2 ^ 32)

unfoldable pub r64 : SimpleMemory → ℕ → ℕ
unfolding offset
r64 m addr = bit_or (r32 m addr) (r32 m (offset addr 4) * 2 ^ 32 % 2 ^ 64)

unfoldable pub r128 : SimpleMemory → ℕ → ℕ
unfolding offset
r128 m addr = bit_or (r64 m addr) (r64 m (offset addr 8) * 2 ^ 64 % 2 ^ 128)

unfoldable pub w8 : SimpleMemory → ℕ → ℕ → SimpleMemory
w8 m addr val = record { map = insert m.map addr val }

unfoldable pub w16 : SimpleMemory → ℕ → ℕ → SimpleMemory
unfolding offset
w16 m addr val = w8 (w8 m addr (val % 2 ^ 8)) (offset addr 1) (val / 2 ^ 8 % 2 ^ 8)

unfoldable pub w32 : SimpleMemory → ℕ → ℕ → SimpleMemory
unfolding offset
w32 m addr val = w16 (w16 m addr (val % 2 ^ 16)) (offset addr 2) (val / 2 ^ 16 % 2 ^ 16)

unfoldable pub w64 : SimpleMemory → ℕ → ℕ → SimpleMemory
unfolding offset
w64 m addr val = w32 (w32 m addr (val % 2 ^ 32)) (offset addr 4) (val / 2 ^ 32 % 2 ^ 32)

unfoldable pub w128 : SimpleMemory → ℕ → ℕ → SimpleMemory
unfolding offset
w128 m addr val = w64 (w64 m addr (val % 2 ^ 64)) (offset addr 8) (val / 2 ^ 64 % 2 ^ 64)

abbrev pub simple_memory : Memory SimpleMemory
simple_memory = record {
  r8 = λ addr m. (r8 m addr, m);
  r16 = λ addr m. (r16 m addr, m);
  r32 = λ addr m. (r32 m addr, m);
  r64 = λ addr m. (r64 m addr, m);
  r128 = λ addr m. (r128 m addr, m);
  w8 = λ addr val m. w8 m addr val;
  w16 = λ addr val m. w16 m addr val;
  w32 = λ addr val m. w32 m addr val;
  w64 = λ addr val m. w64 m addr val;
  w128 = λ addr val m. w128 m addr val;
}
