-- ===== src/Riscv/Reg.antt =====
-- riscv/reg/riscv.rs: the core registers as bytes. `u` is the conversion of a `Usize` of `size`
-- bytes, which gdbstub has. `none` is a panic.
pub mod RoundTrip
use riscv_trace_debugger.Prelude.{
  ℕ, zero, suc, ◌+◌, ◌%◌, Option, none, some, List, [], ◌∷◌, ◌++◌, ◌==◌, take, drop, length, leb,
  if◌then◌else◌, Result, ok, err, replicate, ◌>>=◌,
}
use riscv_trace_debugger.LeBytes.{LeBytes}

pub record RiscvCoreRegs : Type 0 where
  pub x : List ℕ
  pub pc : ℕ

module _ (size : ℕ) (u : LeBytes) where
  -- `write_le_bytes!`
  unfoldable pub le_bytes : ℕ → Option (List ℕ)
  le_bytes value = do
    written ← u.to_le_bytes value (replicate 16 0)
    some (take written.1 written.0)

  unfoldable pub le_bytes_of : List ℕ → Option (List ℕ)
  unfolding le_bytes
  le_bytes_of [] = some []
  le_bytes_of (value ∷ values) = do
    bytes ← le_bytes value
    more ← le_bytes_of values
    some (bytes ++ more)

  unfoldable pub gdb_serialize : RiscvCoreRegs → Option (List ℕ)
  unfolding le_bytes_of
  gdb_serialize regs = do bytes ← le_bytes_of regs.x; more ← le_bytes regs.pc; some (bytes ++ more)

  -- `chunks_exact`: with fuel for the number of the chunks.
  unfoldable pub chunks_exact : ℕ → List ℕ → List (List ℕ)
  chunks_exact zero bytes = []
  chunks_exact (suc fuel) bytes =
      let more = chunks_exact fuel (drop size bytes) in
      if leb size (length bytes) then take size bytes ∷ more else []

  -- The loop over the registers: those that are there take the next chunks. What is left, and
  -- whether there were enough.
  unfoldable pub read_regs :
      List ℕ → List (List ℕ) → Option (List ℕ × List (List ℕ) × Result (Unit {0}) (Unit {0}))
  read_regs [] chunks = some ([], chunks, ok tt)
  read_regs (old ∷ regs) [] = some (old ∷ regs, [], err tt)
  read_regs (old ∷ regs) (chunk ∷ chunks) = do
    value ← u.from_le_bytes chunk
    rest ← read_regs regs chunks
    some (value ∷ rest.0, rest.1, rest.2)

  -- `self.pc = regs.next().ok_or(())?`, and the test that nothing is left.
  unfoldable pub read_pc :
      RiscvCoreRegs → List (List ℕ) → Option (RiscvCoreRegs × Result (Unit {0}) (Unit {0}))
  read_pc regs [] = some (regs, err tt)
  read_pc regs (chunk ∷ []) = do
    value ← u.from_le_bytes chunk
    some (record regs { pc = value }, ok tt)
  read_pc regs (chunk ∷ extra ∷ chunks) = do
    value ← u.from_le_bytes chunk
    value' ← u.from_le_bytes extra
    some (record regs { pc = value }, err tt)

  -- After the registers: on an error what was read so far stays.
  unfoldable pub after_regs :
      RiscvCoreRegs
      → List ℕ × List (List ℕ) × Result (Unit {0}) (Unit {0})
      → Option (RiscvCoreRegs × Result (Unit {0}) (Unit {0}))
  unfolding read_pc
  after_regs regs (x, chunks, err e) = some (record regs { x = x }, err e)
  after_regs regs (x, chunks, ok u) = read_pc (record regs { x = x }) chunks

  unfoldable pub gdb_deserialize :
      RiscvCoreRegs → List ℕ → Option (RiscvCoreRegs × Result (Unit {0}) (Unit {0}))
  unfolding chunks_exact read_regs after_regs
  gdb_deserialize regs bytes =
      if length bytes % size == 0
      then (do read ← read_regs regs.x (chunks_exact (length bytes) bytes); after_regs regs read)
      else some (regs, err tt)
