-- ===== src/Riscv/Id.antt =====
-- riscv/reg/id.rs: the numbers by which a debugger names the registers.
use riscv_trace_debugger.Prelude.{
  ℕ, ◌+◌, ◌-◌, ◌%◌, ◌^◌, ◌<◌, ◌≡◌, ◌&&◌, Option, none, some, leb, ◌==◌, if◌then◌else◌, arith, ap,
  sym, subst, ◌∙◌, ◌↔◌,
}

pub data RiscvRegId : Type 0 where
  gpr fpr csr : ℕ → RiscvRegId
  pc priv : RiscvRegId

-- `NonZeroUsize::new(size)?`
abbrev pub sized : RiscvRegId → ℕ → Option (RiscvRegId × ℕ)
sized id size = if size == 0 then none else some (id, size)

-- A `Usize` has `usize` bytes.
unfoldable pub from_raw_id : ℕ → ℕ → Option (RiscvRegId × ℕ)
from_raw_id usize id =
    if leb id 31
    then sized (gpr (id % 2 ^ 8)) usize
    else if id == 32
    then sized pc usize
    else if leb 33 id && leb id 64
    then sized (fpr ((id - 33) % 2 ^ 8)) usize
    else if leb 65 id && leb id 4160
    then sized (csr ((id - 65) % 2 ^ 16)) usize
    else if id == 4161
    then sized priv 1
    else none

-- The numbering the other way.
abbrev pub raw_id : RiscvRegId → ℕ
raw_id (gpr i) = i
raw_id pc = 32
raw_id (fpr i) = 33 + i
raw_id (csr i) = 65 + i
raw_id priv = 4161

-- There are 32 registers of each kind and 4096 CSRs.
abbrev pub IsRegister : RiscvRegId → Type 0
IsRegister (gpr i) = i < 32
IsRegister (fpr i) = i < 32
IsRegister (csr i) = i < 4096
IsRegister pc = Unit
IsRegister priv = Unit

abbrev pub size_of : ℕ → RiscvRegId → ℕ
size_of usize priv = 1
size_of usize (gpr i) = usize
size_of usize (fpr i) = usize
size_of usize (csr i) = usize
size_of usize pc = usize

-- Every register is found under its number, with its size: words of `usize` bytes, which are some,
-- and one byte for the privilege level.
pub from_raw_id-raw_id :
    (usize : ℕ) (id : RiscvRegId)
    → 0 < usize
    → IsRegister id
    → from_raw_id usize (raw_id id) ≡ some (id, size_of usize id)
unfolding from_raw_id
from_raw_id-raw_id usize (gpr i) h r = ground arith
from_raw_id-raw_id usize (fpr i) h r = ground arith
from_raw_id-raw_id usize (csr i) h r = ground arith
from_raw_id-raw_id usize pc h r = ground arith
from_raw_id-raw_id usize priv h r = ground arith

-- A number under which a register is found is that register's number; it is a register that there is,
-- and the size is its size.
pub raw_id-from_raw_id :
    (usize n : ℕ) {id : RiscvRegId} {size : ℕ}
    → from_raw_id usize n ≡ some (id, size)
    → (raw_id id ≡ n) × IsRegister id × (size ≡ size_of usize id)
unfolding from_raw_id
raw_id-from_raw_id usize n {id} h = ground arith

-- The numbers under which registers are found are exactly the numbers of the registers that there are,
-- each with the size of its register: words of `usize` bytes, which are some, and one byte for the
-- privilege level.
pub from_raw_id_iff :
    (usize n : ℕ) (id : RiscvRegId) (size : ℕ)
    → 0 < usize
    → (from_raw_id usize n ≡ some (id, size))
      ↔ ((raw_id id ≡ n) × IsRegister id × (size ≡ size_of usize id))
from_raw_id_iff usize n id size positive = (
  raw_id-from_raw_id usize n,
  λ h.
      subst (λ k. from_raw_id usize k ≡ some (id, size)) h.0
        (from_raw_id-raw_id usize id positive h.1 ∙ ap (λ k. some (id, k)) (sym h.2)),
)
