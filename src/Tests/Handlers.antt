-- ===== src/Tests/Handlers.antt =====
-- The theorems on the handlers of the debugger's requests, at the sample machine.
use riscv_trace_debugger.Prelude.{
  ◌↔◌, ℕ, ◌+◌, ◌-◌, ◌*◌, ◌%◌, ◌^◌, ◌<◌, ◌≡◌, refl, none, some, List, [], ◌∷◌, ◌++◌, ◌==◌, true,
  false, length, drop, get_elem?, arith, replicate, ok, if◌then◌else◌,
}
use riscv_trace_debugger.LeBytes.{encode}
use riscv_trace_debugger.Str.{codes, starts_with, text_eq}
use riscv_trace_debugger.Str.Utf8.{from_utf8}
use riscv_trace_debugger.Cpu.Replay.{replay}
use riscv_trace_debugger.Machine.{Machine}
use riscv_trace_debugger.Riscv.Id.{
  gpr, pc, csr, from_raw_id, raw_id, IsRegister, size_of, from_raw_id_iff,
}
use riscv_trace_debugger.Riscv.Reg.{RiscvCoreRegs, gdb_serialize, gdb_deserialize}
use riscv_trace_debugger.Riscv.Reg.RoundTrip.{gdb_deserialize-gdb_serialize}
use riscv_trace_debugger.Gdb.Buffers.{copy_range_to_buf, fake_elf_filename}
use riscv_trace_debugger.Gdb.Buffers.Pages.{read_pages, read_pages-copy_range_to_buf}
use riscv_trace_debugger.Gdb.Base.{read_addrs}
use riscv_trace_debugger.Gdb.Base.Memory.{read_addrs_lem}
use riscv_trace_debugger.Gdb.Auxv.{auxv_at_entry, auxv_at_null, get_auxv, get_auxv_lem}
use riscv_trace_debugger.Gdb.Tracepoints.{select, select_frame}
use riscv_trace_debugger.Gdb.SingleRegister.{read_register}
use riscv_trace_debugger.Gdb.SingleRegister.Replayed.{read_register_lem, read_register-select_frame}
use riscv_trace_debugger.Gdb.HostIo.{HostIoOpenFlags, open_file, close, file_at}
use riscv_trace_debugger.Gdb.HostIo.Table.{IsPacked, open_file-Opens, close-Closes}
use riscv_trace_debugger.Tests.Sample.{machine, sample, start_state, machine-Consistent}
use riscv_trace_debugger.Tests.Host.{word, word-IsLeBytes, host}

read_pages-copy_range_to_buf_example :
    read_pages (λ offset. copy_range_to_buf fake_elf_filename offset 4 (replicate 3 0)) 10 0
    ≡ some fake_elf_filename
read_pages-copy_range_to_buf_example =
    read_pages-copy_range_to_buf fake_elf_filename 4 (replicate 3 0) (omega arith) (omega arith)
      (omega arith) 10 0 (omega arith) (omega arith)

read_addrs_lem_example :
    let read = read_addrs 32 machine (2 ^ 32 - 1) (0 ∷ 0 ∷ []) in
    (read.1 ≡ ok 2)
    × (length read.0 ≡ 2)
    × ((i : ℕ)
        → i < 2
        → get_elem? read.0 i
          ≡ some ((replay start_state sample 0).bytes ((2 ^ 32 - 1 + i) % 2 ^ 32)))
read_addrs_lem_example =
    read_addrs_lem 32 machine (2 ^ 32 - 1) (0 ∷ 0 ∷ []) machine-Consistent refl (omega arith)

get_auxv_lem_example :
    get_auxv 8 (word 8) machine 0 64 (replicate 64 0)
    ≡ copy_range_to_buf
        (encode 8 auxv_at_entry ++ (encode 8 0 ++ (encode 8 auxv_at_null ++ encode 8 0)))
        0
        64
        (replicate 64 0)
get_auxv_lem_example =
    get_auxv_lem (word 8) (word-IsLeBytes 8) machine 0 64 (replicate 64 0) (omega arith)

abbrev flags : HostIoOpenFlags
flags = record {
  o_rdwr = true;
  o_wronly = false;
  o_append = false;
  o_creat = false;
  o_trunc = false;
  o_excl = false;
}

-- One file is open, and another one was closed before it.
abbrev reading : Machine
reading = record machine { files = none ∷ some 5 ∷ [] }

not_proc : starts_with (codes "/proc") (codes "/a") ≡ false
unfolding starts_with
not_proc = refl

not_elf : text_eq (codes "/a") fake_elf_filename ≡ false
unfolding text_eq
not_elf = refl

is_text : from_utf8 (codes "/a") ≡ some (codes "/a")
unfolding from_utf8
is_text = refl

open_file-Opens_example :
    let out = open_file host reading (codes "/a") flags in
    (fd : ℕ) × (out.1 ≡ ok fd)
    × (file_at reading.files fd ≡ none)
    × ((x : ℕ) → file_at out.0.files x ≡ (if x == fd then some 7 else file_at reading.files x))
    × IsPacked out.0.files
open_file-Opens_example =
    open_file-Opens host reading (codes "/a") flags (codes "/a") 7 not_proc not_elf is_text refl
      (omega arith) tt

second_open : file_at reading.files 2 ≡ some 5
unfolding file_at
second_open = refl

close-Closes_example :
    let out = close host reading 2 in
    (out.1 ≡ ok tt)
    × ((x : ℕ) → file_at out.0.files x ≡ (if x == 2 then none else file_at reading.files x))
    × IsPacked out.0.files
close-Closes_example = close-Closes host reading 2 5 second_open

pc_id : from_raw_id 8 32 ≡ some (pc, 8)
unfolding from_raw_id
pc_id = refl

from_raw_id_iff_example :
    (from_raw_id 4 (65 + 0x305) ≡ some (csr 0x305, 4))
    ↔ ((raw_id (csr 0x305) ≡ 65 + 0x305) × IsRegister (csr 0x305) × (4 ≡ size_of 4 (csr 0x305)))
from_raw_id_iff_example = from_raw_id_iff 4 (65 + 0x305) (csr 0x305) 4 (omega arith)

abbrev regs : RiscvCoreRegs
regs = record { x = 1 ∷ 0xffff_ffff ∷ []; pc = 0x80 }

gdb_deserialize-gdb_serialize_example :
    (bytes : List ℕ) × (gdb_serialize 4 (word 4) regs ≡ some bytes)
    × (length bytes ≡ 3 * 4)
    × (gdb_deserialize 4 (word 4) (record { x = 0 ∷ 0 ∷ []; pc = 0 }) bytes ≡ some (regs, ok tt))
gdb_deserialize-gdb_serialize_example =
    gdb_deserialize-gdb_serialize (word-IsLeBytes 4) (omega arith) (omega arith) regs
      (omega arith, (omega arith, tt)) (omega arith) (record { x = 0 ∷ 0 ∷ []; pc = 0 }) refl

read_register_lem_example :
    let cpu = (replay start_state sample 0).cpu in
    ((i v : ℕ)
      → get_elem? cpu.xregs i ≡ some v
      → v < 256 ^ 4
      → read_register (word 4) machine (gpr i) (replicate 8 0)
        ≡ some (encode 4 v ++ drop 4 (replicate 8 0), ok 4))
    × (cpu.pc < 256 ^ 4
        → read_register (word 4) machine pc (replicate 8 0)
          ≡ some (encode 4 cpu.pc ++ drop 4 (replicate 8 0), ok 4))
read_register_lem_example =
    read_register_lem (word-IsLeBytes 4) machine machine-Consistent (replicate 8 0) (omega arith)

read_register-select_frame_example :
    read_register (word 4) (select_frame machine (select 0)).0 pc (replicate 4 0)
    ≡ read_register (word 4) machine pc (replicate 4 0)
read_register-select_frame_example =
    read_register-select_frame (word 4) machine (select 0) pc (replicate 4 0)
