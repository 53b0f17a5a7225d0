-- ===== src/Memory/Simple.antt =====
-- `SimpleMemory`, and the proof that it is a lawful memory.
mod Defs
mod Reads
mod Writes
unfoldable pub use Defs.*
use riscv_trace_debugger.Memory.LittleEndian.{IsBytes, u64_mod, le_value, put}
use riscv_trace_debugger.Memory.Access.{Width, size, read, write, b8, b16, b32, b64, b128}
use riscv_trace_debugger.Memory.Laws.{Lawful, read-write, write-write_back}
use riscv_trace_debugger.Prelude.{ℕ, ◌<◌, ◌^◌, ◌≡◌, refl}
use Reads.{r8-eq-le_value, r16-eq-le_value, r32-eq-le_value, r64-eq-le_value, r128-eq-le_value}
use Writes.{w8-eq-put, w16-eq-put, w32-eq-put, w64-eq-put, w128-eq-put}

abbrev pub simple_lawful : Lawful simple_memory
simple_lawful = record {
  bytes = r8;
  read_value = elim [
    | b8 ↦ λ a m h. r8-eq-le_value m a
    | b16 ↦ λ a m h. r16-eq-le_value m h a
    | b32 ↦ λ a m h. r32-eq-le_value m h a
    | b64 ↦ λ a m h. r64-eq-le_value m h a
    | b128 ↦ λ a m h. r128-eq-le_value m h a
  ];
  read_bytes = elim [
    | b8 ↦ λ a m. refl
    | b16 ↦ λ a m. refl
    | b32 ↦ λ a m. refl
    | b64 ↦ λ a m. refl
    | b128 ↦ λ a m. refl
  ];
  write_bytes = elim [
    | b8 ↦ λ a v m. w8-eq-put m a v
    | b16 ↦ λ a v m. w16-eq-put m a v
    | b32 ↦ λ a v m. w32-eq-put m a v
    | b64 ↦ λ a v m. w64-eq-put m a v
    | b128 ↦ λ a v m. w128-eq-put m a v
  ];
}

-- Reads and writes of `SimpleMemory` are little-endian at every width, and wrap at the end of the
-- address space: a read gives the value of the bytes from its address on, and a write puts the bytes
-- of its value there and leaves all others. It holds of a memory whose bytes are below 256, an address
-- below 2 ^ 64, and a value that fits the width.
pub simple_little_endian :
    (w : Width) (a v : ℕ) (m : SimpleMemory)
    → IsBytes (r8 m)
    → a < u64_mod
    → v < 256 ^ size w
    → ((read simple_memory w a m).0 ≡ le_value (size w) (r8 m) a)
      × (r8 (write simple_memory w a v m) ≡ put (size w) v (r8 m) a)
simple_little_endian w a v m bytes address fits =
    (simple_lawful.read_value w a m bytes address, simple_lawful.write_bytes w a v m address fits)

-- In `SimpleMemory`, a read gives back the value that a write of the same width has put there, at every
-- address below 2 ^ 64, also where the access runs over the end of the address space. The value fits
-- the width, and the bytes of the memory are below 256.
pub simple_read-write :
    (w : Width) (a v : ℕ) (m : SimpleMemory)
    → IsBytes (r8 m)
    → a < u64_mod
    → v < 256 ^ size w
    → (read simple_memory w a (write simple_memory w a v m)).0 ≡ v
simple_read-write w a v m bytes address fits = read-write simple_lawful w a v m address fits bytes

-- In `SimpleMemory`, whose bytes are below 256, at an address below 2 ^ 64, writing a value that fits
-- the width and then the one that was read there before leaves every byte as it was.
pub simple_write-write_back :
    (w : Width) (a v : ℕ) (m : SimpleMemory)
    → IsBytes (r8 m)
    → a < u64_mod
    → v < 256 ^ size w
    → r8 (write simple_memory w a (read simple_memory w a m).0 (write simple_memory w a v m)) ≡ r8 m
simple_write-write_back w a v m bytes address fits =
    write-write_back simple_lawful w a v m address fits bytes
