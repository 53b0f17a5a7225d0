-- ===== src/Memory/Access.antt =====
-- The trait `Memory` of memory.rs, and its accesses taken together by their width.
use riscv_trace_debugger.Prelude.{ℕ}

-- `&mut self` is a state that goes in and comes out, in the reads too.
pub record Memory (M : Type 0) : Type 0 where
  pub r8 : ℕ → M → ℕ × M
  pub r16 : ℕ → M → ℕ × M
  pub r32 : ℕ → M → ℕ × M
  pub r64 : ℕ → M → ℕ × M
  pub r128 : ℕ → M → ℕ × M
  pub w8 : ℕ → ℕ → M → M
  pub w16 : ℕ → ℕ → M → M
  pub w32 : ℕ → ℕ → M → M
  pub w64 : ℕ → ℕ → M → M
  pub w128 : ℕ → ℕ → M → M

pub data Width : Type 0 where
  b8 b16 b32 b64 b128 : Width

-- In bytes.
abbrev pub size : Width → ℕ
size b8 = 1
size b16 = 2
size b32 = 4
size b64 = 8
size b128 = 16

module _ {M : Type 0} (mem : Memory M) where
  abbrev pub read : Width → ℕ → M → ℕ × M
  read b8 = mem.r8
  read b16 = mem.r16
  read b32 = mem.r32
  read b64 = mem.r64
  read b128 = mem.r128

  abbrev pub write : Width → ℕ → ℕ → M → M
  write b8 = mem.w8
  write b16 = mem.w16
  write b32 = mem.w32
  write b64 = mem.w64
  write b128 = mem.w128
