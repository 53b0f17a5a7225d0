-- ===== src/Trace.antt =====
-- trace.rs. A `Usize` is a number; a text is the list of its code points.
pub mod Typed
use riscv_trace_debugger.Prelude.{ℕ, Bool, Option, List}

abbrev pub Text : Type 0
Text = List ℕ

pub data Data : Type 0 where
  u8 u16 u32 u64 u128 : ℕ → Data

pub record XRegWrite : Type 0 where
  pub index : ℕ
  pub value : ℕ
  pub prev_value : Option ℕ

pub record MemWrite : Type 0 where
  pub phys_addr : ℕ
  pub value : Data
  pub prev_value : Option Data

pub record TraceEvent : Type 0 where
  pub time : ℕ
  pub cycle : ℕ
  pub pc : ℕ
  pub trap : Bool
  pub instruction : Option ℕ
  pub assembly_mnemonic : Text
  pub assembly_args : Text
  pub xwrite : Option XRegWrite
  pub store : Option MemWrite
