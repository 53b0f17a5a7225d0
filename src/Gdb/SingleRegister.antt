-- ===== src/Gdb/SingleRegister.antt =====
-- gdb/single_register_access.rs. `u` is the conversion of a `Usize`, which gdbstub has. `none` is a
-- panic.
pub mod Replayed
use riscv_trace_debugger.Prelude.{
  ℕ, Option, none, some, List, [], ◌∷◌, ◌==◌, length, get_elem?, if◌then◌else◌, Result, ok, err,
}
use riscv_trace_debugger.HashMap
use riscv_trace_debugger.LeBytes.{LeBytes}
use riscv_trace_debugger.Cpu.{Cpu, Privilege, machine, supervisor, user}
use riscv_trace_debugger.Machine.{Machine}
use riscv_trace_debugger.Riscv.Id.{RiscvRegId, gpr, fpr, csr, pc, priv}
use riscv_trace_debugger.Gdb.Tracepoints.{TargetError, non_fatal, Handled}

-- The buffer afterwards, and how many bytes of it were written.
abbrev pub Read : Type 0
Read = List ℕ × Result TargetError ℕ

abbrev pub encoding : Privilege → ℕ
encoding machine = 3
encoding supervisor = 1
encoding user = 0

-- `to_le_bytes(buf).ok_or(().into())`
abbrev pub written : List ℕ → Option (List ℕ × ℕ) → Read
written buf none = (buf, err non_fatal)
written buf (some (buf', n)) = (buf', ok n)

module _ (u : LeBytes) where
  -- What stands in a register, if it is there.
  unfoldable pub read_value : Option ℕ → List ℕ → Read
  read_value none buf = (buf, err non_fatal)
  read_value (some reg_val) buf = written buf (u.to_le_bytes reg_val buf)

  -- `copy_from_slice` of the one byte panics for any other length of the buffer.
  unfoldable pub read_priv : Cpu → List ℕ → Option Read
  read_priv cpu buf =
      if length buf == 1 then some (encoding cpu.privilege ∷ [], ok (length buf)) else none

  unfoldable pub read_register : Machine → RiscvRegId → List ℕ → Option Read
  unfolding read_value read_priv
  read_register m (gpr reg_id) buf = some (read_value (get_elem? m.cpu.xregs reg_id) buf)
  read_register m (fpr reg_id) buf = some (read_value (get_elem? m.cpu.fregs reg_id) buf)
  read_register m pc buf = some (read_value (some m.cpu.pc) buf)
  read_register m (csr reg_id) buf = some (read_value (HashMap.get m.cpu.csrs reg_id) buf)
  read_register m priv buf = read_priv m.cpu buf

unfoldable pub write_register : Machine → RiscvRegId → List ℕ → Handled (Unit {0})
write_register m reg_id val = (m, err non_fatal)
