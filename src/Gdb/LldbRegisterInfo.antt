-- ===== src/Gdb/LldbRegisterInfo.antt =====
-- gdb/lldb_register_info_override.rs: what lldb is told of a register. The trait is not enabled in
-- gdb/mod.rs. A `Usize` has `size` bytes.
use riscv_trace_debugger.Prelude.{
  ℕ, ◌-◌, ◌*◌, ◌%◌, ◌^◌, ◌&&◌, Option, none, some, ◌++◌, leb, ◌==◌, if◌then◌else◌, ◌≡◌, refl,
}
use riscv_trace_debugger.Trace.{Text}
use riscv_trace_debugger.Str.{codes, decimal}
use riscv_trace_debugger.Riscv.Id
use riscv_trace_debugger.Riscv.Id.{RiscvRegId, gpr, fpr, csr, pc, priv, from_raw_id}

-- A copy of the numbering in riscv/reg/id.rs.
unfoldable pub riscv_regid_from_raw_id : ℕ → ℕ → Option (RiscvRegId × ℕ)
riscv_regid_from_raw_id size id =
    if leb id 31
    then Id.sized (gpr (id % 2 ^ 8)) size
    else if id == 32
    then Id.sized pc size
    else if leb 33 id && leb id 64
    then Id.sized (fpr ((id - 33) % 2 ^ 8)) size
    else if leb 65 id && leb id 4160
    then Id.sized (csr ((id - 65) % 2 ^ 16)) size
    else if id == 4161
    then Id.sized priv 1
    else none

-- The fields of `Register` that differ between registers; it is a hexadecimal `Uint`, has the
-- number `dwarf`, and nothing else.
pub record Register : Type 0 where
  pub name : Text
  pub bitsize : ℕ
  pub offset : ℕ
  pub set_name : Text
  pub dwarf : ℕ

abbrev name_of : RiscvRegId → Text
name_of (gpr i) = codes "x" ++ decimal i
name_of (fpr i) = codes "unknown"
name_of (csr i) = codes "unknown"
name_of pc = codes "unknown"
name_of priv = codes "unknown"

abbrev set_of : RiscvRegId → Text
set_of (gpr i) = codes "General Purpose Registers"
set_of (fpr i) = codes "Floating Point Registers"
set_of pc = codes "Program Counter"
set_of (csr i) = codes "Control and Status Registers"
set_of priv = codes "Privilege Mode"

-- `none` is `reg_info.done()`.
unfoldable pub lldb_register_info : ℕ → ℕ → Option Register
unfolding riscv_regid_from_raw_id
lldb_register_info usize reg_id = elim (riscv_regid_from_raw_id usize reg_id) [
  | none ↦ none
  | some (r, size) ↦ some (record {
    name = name_of r;
    bitsize = size * 8;
    offset = reg_id * size;
    set_name = set_of r;
    dwarf = reg_id;
  })
]

-- The two numberings are the same.
pub riscv_regid_from_raw_id_lem :
    (size id : ℕ) → riscv_regid_from_raw_id size id ≡ from_raw_id size id
unfolding riscv_regid_from_raw_id from_raw_id
riscv_regid_from_raw_id_lem size id = refl
