-- ===== src/IbexTrace.antt =====
-- ibex_trace.rs: the reader of the traces of Ibex. A `Usize` has `w` bits. The masks and matches of
-- `riscv_opcodes` are a parameter.
pub mod Counted
pub mod Print
pub mod RoundTrip
pub mod Traces
pub mod Valid
use mathlib.Core.Option
use Prim.Native.Nat.{bit_and}
use riscv_trace_debugger.Prelude.{
  ℕ, zero, suc, ◌+◌, ◌^◌, Bool, true, false, Option, none, some, List, [], ◌∷◌, ◌++◌, ltb, ◌==◌,
  get_elem?, if◌then◌else◌, Result, ok, err, not,
}
use riscv_trace_debugger.Fallible.{◌>>=◌, ◌>>◌, ok_or, guard}
use riscv_trace_debugger.Trace.{Text, Data, u8, u16, u32, XRegWrite, MemWrite, TraceEvent}
use riscv_trace_debugger.Str.{
  codes, is_some, strip_prefix, starts_with, trim, split, split_ascii_whitespace, from_str_radix,
  decimal,
}

-- The `bail!`s, and the contexts of the other errors.
pub data Error : Type 0 where
  too_few_values parsing multiple_stores multiple_pas multiple_x_writes unknown_width
        store_without_pa :
      Error

-- Constants of the crate `riscv_opcodes`: a mask and a match for each instruction.
pub record Opcodes : Type 0 where
  pub lb : ℕ × ℕ
  pub lh : ℕ × ℕ
  pub lw : ℕ × ℕ
  pub sb : ℕ × ℕ
  pub sh : ℕ × ℕ
  pub sw : ℕ × ℕ
  pub c_lw : ℕ × ℕ
  pub c_sw : ℕ × ℕ
  pub c_lwsp : ℕ × ℕ
  pub c_swsp : ℕ × ℕ

pub data AccessWidth : Type 0 where
  byte half word : AccessWidth

abbrev matches : ℕ → ℕ × ℕ → Bool
matches instruction (mask, value) = bit_and instruction mask == value

unfoldable pub instruction_access_width : Opcodes → ℕ → Option AccessWidth
instruction_access_width ops instruction =
    if matches instruction ops.lb
    then some byte
    else if matches instruction ops.lh
    then some half
    else if matches instruction ops.lw
    then some word
    else if matches instruction ops.sb
    then some byte
    else if matches instruction ops.sh
    then some half
    else if matches instruction ops.sw
    then some word
    else if matches instruction ops.c_lw
    then some word
    else if matches instruction ops.c_sw
    then some word
    else if matches instruction ops.c_lwsp
    then some word
    else if matches instruction ops.c_swsp
    then some word
    else none

-- The three variables that the loop over the accesses fills in.
pub record Accesses : Type 0 where
  pub phys_addr : Option ℕ
  pub store_val : Option ℕ
  pub xwrite : Option XRegWrite

abbrev pub no_accesses : Accesses
no_accesses = record { phys_addr = none; store_val = none; xwrite = none }

unfoldable pub read_store : Text → Accesses → Result Error Accesses
read_store val acc = do
  guard (not (is_some acc.store_val)) multiple_stores
  v ← ok_or (from_str_radix 16 64 val) parsing
  ok (record acc { store_val = some v })

unfoldable pub read_pa : Text → Accesses → Result Error Accesses
read_pa val acc = do
  guard (not (is_some acc.phys_addr)) multiple_pas
  v ← ok_or (from_str_radix 16 64 val) parsing
  ok (record acc { phys_addr = some v })

-- `parse` and `convert` of what stands in one column or behind a prefix: `try_into` of a store.
unfoldable pub store_data : ℕ → Option AccessWidth → Result Error Data
store_data val (some byte) = if ltb val (2 ^ 8) then ok (u8 val) else err parsing
store_data val (some half) = if ltb val (2 ^ 16) then ok (u16 val) else err parsing
store_data val (some word) = if ltb val (2 ^ 32) then ok (u32 val) else err parsing
store_data val none = err unknown_width

unfoldable pub make_store : Opcodes → ℕ → Option ℕ → Option ℕ → Result Error (Option MemWrite)
unfolding store_data
make_store ops instruction none phys_addr = ok none
make_store ops instruction (some val) none = err store_without_pa
make_store ops instruction (some val) (some phys_addr) = do
  value ← store_data val (instruction_access_width ops instruction)
  ok (some (record { phys_addr = phys_addr; value = value; prev_value = none }))

module _ (w : ℕ) where
  -- One round of the loop over the registers.
  unfoldable pub read_x : ℕ → Text → Accesses → Result Error Accesses
  read_x index part acc = elim (strip_prefix (codes "x" ++ decimal index ++ codes "=0x") part) [
    | none ↦ ok acc
    | some val ↦ do
      guard (not (is_some acc.xwrite)) multiple_x_writes
      value ← ok_or (from_str_radix 16 w val) parsing
      ok (record acc { xwrite = some (record { index = index; value = value; prev_value = none }) })
  ]

  -- `rounds` rounds, from `index` on.
  unfoldable pub read_xs : ℕ → ℕ → Text → Accesses → Result Error Accesses
  unfolding read_x
  read_xs zero index part acc = ok acc
  read_xs (suc rounds) index part acc = do
    acc' ← read_x index part acc
    read_xs rounds (index + 1) part acc'

  unfoldable pub read_part : Text → Accesses → Result Error Accesses
  unfolding read_store read_pa read_xs
  read_part part acc = elim (strip_prefix (codes "store:0x") part) [
    | some val ↦ read_store val acc
    | none ↦ elim (strip_prefix (codes "PA:0x") part) [
      | some val ↦ read_pa val acc
      | none ↦ read_xs 31 1 part acc
    ]
  ]

  unfoldable pub read_parts : List Text → Accesses → Result Error Accesses
  unfolding read_part
  read_parts [] acc = ok acc
  read_parts (part ∷ parts) acc = do acc' ← read_part part acc; read_parts parts acc'

  unfoldable pub read_accesses : Option Text → Result Error Accesses
  unfolding read_parts
  read_accesses none = ok no_accesses
  read_accesses (some accesses) = read_parts (split_ascii_whitespace accesses) no_accesses

  module _ (ops : Opcodes) where
    -- The values between the tabs.
    unfoldable pub read_values : List Text → Result Error TraceEvent
    unfolding read_accesses make_store
    read_values (time_str ∷ cycle_str ∷ pc_str ∷ instruction_str ∷ more) = do
      time ← ok_or (from_str_radix 10 64 (trim time_str)) parsing
      cycle ← ok_or (from_str_radix 10 64 (trim cycle_str)) parsing
      pc ← ok_or (from_str_radix 16 w pc_str) parsing
      instruction ← ok_or (from_str_radix 16 32 (trim instruction_str)) parsing
      found ← read_accesses (get_elem? more 2)
      store ← make_store ops instruction found.store_val found.phys_addr
      ok (record {
        time = time;
        cycle = cycle;
        pc = pc;
        trap = false;
        instruction = some instruction;
        assembly_mnemonic = Option.get_or (get_elem? more 0) [];
        assembly_args = Option.get_or (get_elem? more 1) [];
        xwrite = found.xwrite;
        store = store;
      })
    read_values [] = err too_few_values
    read_values (a ∷ []) = err too_few_values
    read_values (a ∷ b ∷ []) = err too_few_values
    read_values (a ∷ b ∷ c ∷ []) = err too_few_values

    unfoldable pub read_line : Text → Result Error TraceEvent
    unfolding read_values
    read_line line = read_values (split b'\t' line)

    -- `lines` are those of the file; opening it and errors of reading are the host's.
    unfoldable pub read_trace : List Text → Result Error (List TraceEvent)
    unfolding read_line
    read_trace [] = ok []
    read_trace (line ∷ lines) = elim (starts_with (codes "Time") line) [
      | true ↦ read_trace lines
      | false ↦ do event ← read_line line; events ← read_trace lines; ok (event ∷ events)
    ]
