-- ===== src/Memory/Laws.antt =====
-- What a client of a `Memory` relies on: it holds a byte at each address, and an access of `n` bytes
-- reads or puts a little-endian value.
use riscv_trace_debugger.Prelude.{ℕ, ◌^◌, ◌<◌, ◌≡◌, ◌∙◌, ap, arith}
use riscv_trace_debugger.Memory.Access.{Memory, Width, b8, b16, b32, b64, b128, size, read, write}
use riscv_trace_debugger.Memory.LittleEndian.{
  Bytes, IsBytes, u64_mod, le_value, put, le_value-put, le_value-lt, put_undo, IsBytes-put,
}

pub record Lawful {M : Type 0} (mem : Memory M) : Type 0 where
  pub bytes : M → Bytes
  pub read_value :
      (w : Width) (a : ℕ) (m : M)
      → IsBytes (bytes m)
      → a < u64_mod
      → (read mem w a m).0 ≡ le_value (size w) (bytes m) a
  pub read_bytes : (w : Width) (a : ℕ) (m : M) → bytes (read mem w a m).1 ≡ bytes m
  pub write_bytes :
      (w : Width) (a v : ℕ) (m : M)
      → a < u64_mod
      → v < 256 ^ size w
      → bytes (write mem w a v m) ≡ put (size w) v (bytes m) a

size-small : (w : Width) → size w < u64_mod
size-small b8 = omega arith
size-small b16 = omega arith
size-small b32 = omega arith
size-small b64 = omega arith
size-small b128 = omega arith

module _ {M : Type 0} {mem : Memory M} (law : Lawful mem) (w : Width) (a v : ℕ) (m : M)
    (address : a < u64_mod) (fits : v < 256 ^ size w) (bytes : IsBytes (law.bytes m)) where
  pub IsBytes-write : IsBytes (law.bytes (write mem w a v m))
  IsBytes-write = rw (law.write_bytes w a v m address fits) (IsBytes-put (size w) v _ a bytes)

  -- In a lawful memory a read gives back the value that a write of the same width has put there, at
  -- every address below 2 ^ 64, also where the access runs over the end of the address space. The
  -- value fits the width, and the bytes of the memory are below 256.
  pub read-write : (read mem w a (write mem w a v m)).0 ≡ v
  read-write =
      law.read_value w a (write mem w a v m) IsBytes-write address
      ∙ ap (λ f. le_value (size w) f a) (law.write_bytes w a v m address fits)
      ∙ le_value-put (size w) v (law.bytes m) a (size-small w) fits

  -- In a lawful memory whose bytes are below 256, at an address below 2 ^ 64, writing a value that
  -- fits the width and then the one that was read there before leaves every byte as it was.
  pub write-write_back :
      law.bytes (write mem w a (read mem w a m).0 (write mem w a v m)) ≡ law.bytes m
  write-write_back = rw (law.read_value w a m bytes address) (
      law.write_bytes w a (le_value (size w) (law.bytes m) a) (write mem w a v m) address
        (le_value-lt (size w) (law.bytes m) a bytes)
      ∙ ap (λ f. put (size w) (le_value (size w) (law.bytes m) a) f a)
          (law.write_bytes w a v m address fits)
      ∙ put_undo (size w) v (law.bytes m) a bytes)
