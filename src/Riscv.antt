-- ===== src/Riscv.antt =====
-- riscv/mod.rs: the architectures.
pub mod Id
pub mod Reg
use Prim.Native.String.{String}
use riscv_trace_debugger.Prelude.{ℕ}

pub data RiscvArch : Type 0 where
  riscv_arch32 riscv_arch64 riscv_cheri_arch32 riscv_cheri_arch64 : RiscvArch

-- The bytes of a `Usize`.
unfoldable pub usize_size : RiscvArch → ℕ
usize_size riscv_arch32 = 4
usize_size riscv_arch64 = 8
usize_size riscv_cheri_arch32 = 4
usize_size riscv_cheri_arch64 = 8

-- `include_str!` is a parameter: the contents of a file beside the source.
unfoldable pub target_description_xml : {Xml : Type 0} → (String → Xml) → RiscvArch → Xml
target_description_xml include_str riscv_arch32 = include_str "rv32i.xml"
target_description_xml include_str riscv_arch64 = include_str "rv64i.xml"
target_description_xml include_str riscv_cheri_arch32 = include_str "rv32y.xml"
target_description_xml include_str riscv_cheri_arch64 = include_str "rv64y.xml"
