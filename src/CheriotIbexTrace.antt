-- ===== src/CheriotIbexTrace.antt =====
-- cheriot_ibex_trace.rs: the reader of the traces of Cheriot-Ibex. A `Usize` has `w` bits, 32 or 64.
pub mod Counted
pub mod Fits
pub mod Parts
pub mod Print
pub mod RoundTrip
pub mod Traces
pub mod Valid
pub mod Values
use mathlib.Core.Option
use riscv_trace_debugger.Prelude.{
  ℕ, zero, suc, ◌+◌, ◌*◌, ◌%◌, ◌^◌, Bool, true, false, Option, none, some, List, [], ◌∷◌, ◌++◌, ltb,
  ◌==◌, get_elem?, if◌then◌else◌, Result, ok, err, not, bit_or,
}
use riscv_trace_debugger.Fallible.{◌>>=◌, ◌>>◌, ok_or, guard}
use riscv_trace_debugger.Trace.{
  Text, Data, u8, u16, u32, u64, u128, XRegWrite, MemWrite, TraceEvent,
}
use riscv_trace_debugger.Str.{
  codes, len, is_some, strip_prefix, starts_with, trim, trim_start_matches, split, split_once,
  split_ascii_whitespace, from_str_radix, decimal,
}

-- The `bail!`s, and the contexts of the other errors.
pub data Error : Type 0 where
  too_few_values parsing missing_prefix invalid_hex multiple_stores multiple_pas : Error
  multiple_x_writes invalid_metadata unsupported_xlen invalid_hex_length store_without_pa : Error

unfoldable pub strip_hex_prefix : Text → Result Error Text
strip_hex_prefix val = ok_or (strip_prefix (codes "0x") val) missing_prefix

-- `U` has `bits` bits.
unfoldable pub parse_hex : ℕ → Text → Result Error ℕ
parse_hex bits val = ok_or (from_str_radix 16 bits val) invalid_hex

-- The three variables that the loop over the accesses fills in.
pub record Accesses : Type 0 where
  pub phys_addr : Option ℕ
  pub store_val : Option Data
  pub xwrite : Option XRegWrite

abbrev pub no_accesses : Accesses
no_accesses = record { phys_addr = none; store_val = none; xwrite = none }

-- The metadata without the digit of the tag, which is 0 or 1.
unfoldable pub strip_tag : Text → Result Error (Text × Bool)
strip_tag metadata = elim (strip_prefix (codes "0") metadata) [
  | some rest ↦ ok (rest, false)
  | none ↦ elim (strip_prefix (codes "1") metadata) [
    | some rest ↦ ok (rest, true)
    | none ↦ err invalid_metadata
  ]
]

-- `Data::U64` and `Data::U128` of the two halves, of `w` bits each.
unfoldable pub capability_data : ℕ → Text → Text → Result Error Data
unfolding parse_hex
capability_data w metadata val =
    if w == 32
    then (do
      high ← parse_hex 32 metadata
      low ← parse_hex 32 val
      ok (u64 (bit_or (high * 2 ^ 32 % 2 ^ 64) low)))
    else if w == 64
    then (do
      high ← parse_hex 64 metadata
      low ← parse_hex 64 val
      ok (u128 (bit_or (high * 2 ^ 64 % 2 ^ 128) low)))
    else err unsupported_xlen

-- The store of a capability, `0x12345678+0x112345678`.
unfoldable pub read_capability : ℕ → Text → Text → Result Error Data
unfolding strip_hex_prefix strip_tag capability_data
read_capability w first second = do
  val ← strip_hex_prefix first
  metadata ← strip_hex_prefix second
  tagged ← strip_tag metadata
  capability_data w tagged.0 val

unfoldable pub data_of_len : ℕ → Text → Result Error Data
unfolding parse_hex
data_of_len n val =
    if n == 2
    then (do v ← parse_hex 8 val; ok (u8 v))
    else if n == 4
    then (do v ← parse_hex 16 val; ok (u16 v))
    else if n == 8
    then (do v ← parse_hex 32 val; ok (u32 v))
    else if n == 16
    then (do v ← parse_hex 64 val; ok (u64 v))
    else if n == 32
    then (do v ← parse_hex 128 val; ok (u128 v))
    else err invalid_hex_length

-- Any other store, like `0x????1234`: its width is that of its digits.
unfoldable pub read_plain : Text → Result Error Data
unfolding strip_hex_prefix data_of_len len trim_start_matches
read_plain val = do
  val' ← strip_hex_prefix val
  let digits = trim_start_matches b'?' val'
  data_of_len (len digits) digits

unfoldable pub read_store_val : ℕ → Text → Result Error Data
unfolding read_capability read_plain
read_store_val w val = elim (split_once b'+' val) [
  | some (first, second) ↦ read_capability w first second
  | none ↦ read_plain val
]

unfoldable pub read_store : ℕ → Text → Accesses → Result Error Accesses
unfolding read_store_val
read_store w val acc = do
  guard (not (is_some acc.store_val)) multiple_stores
  v ← read_store_val w val
  ok (record acc { store_val = some v })

unfoldable pub read_pa : Text → Accesses → Result Error Accesses
unfolding strip_hex_prefix parse_hex
read_pa val acc = do
  guard (not (is_some acc.phys_addr)) multiple_pas
  digits ← strip_hex_prefix val
  v ← parse_hex 64 digits
  ok (record acc { phys_addr = some v })

unfoldable pub make_store : Option Data → Option ℕ → Result Error (Option MemWrite)
make_store none phys_addr = ok none
make_store (some value) none = err store_without_pa
make_store (some value) (some phys_addr) =
    ok (some (record { phys_addr = phys_addr; value = value; prev_value = none }))

module _ (w : ℕ) where
  -- The metadata of a register is ignored.
  unfoldable pub read_x_value : Text → Result Error ℕ
  unfolding strip_hex_prefix parse_hex
  read_x_value val = elim (split_once b'+' val) [
    | some (first, metadata) ↦ do digits ← strip_hex_prefix first; parse_hex w digits
    | none ↦ do digits ← strip_hex_prefix val; parse_hex w digits
  ]

  -- One round of the loop over the registers.
  unfoldable pub read_x : ℕ → Text → Accesses → Result Error Accesses
  unfolding read_x_value
  read_x index part acc = elim (strip_prefix (codes "x" ++ decimal index ++ codes "=") part) [
    | none ↦ ok acc
    | some val ↦ do
      guard (not (is_some acc.xwrite)) multiple_x_writes
      value ← read_x_value val
      ok (record acc { xwrite = some (record { index = index; value = value; prev_value = none }) })
  ]

  -- `rounds` rounds, from `index` on.
  unfoldable pub read_xs : ℕ → ℕ → Text → Accesses → Result Error Accesses
  unfolding read_x
  read_xs zero index part acc = ok acc
  read_xs (suc rounds) index part acc = do
    acc' ← read_x index part acc
    read_xs rounds (index + 1) part acc'

  unfoldable pub read_part : Text → Accesses → Result Error Accesses
  unfolding read_store read_pa read_xs
  read_part part acc = elim (strip_prefix (codes "store:") part) [
    | some val ↦ read_store w val acc
    | none ↦ elim (strip_prefix (codes "PA:") part) [
      | some val ↦ read_pa val acc
      | none ↦ read_xs 31 1 part acc
    ]
  ]

  unfoldable pub read_parts : List Text → Accesses → Result Error Accesses
  unfolding read_part
  read_parts [] acc = ok acc
  read_parts (part ∷ parts) acc = do acc' ← read_part part acc; read_parts parts acc'

  unfoldable pub read_accesses : Option Text → Result Error Accesses
  unfolding read_parts
  read_accesses none = ok no_accesses
  read_accesses (some accesses) = read_parts (split_ascii_whitespace accesses) no_accesses

  -- `is_some_and`
  abbrev is_trap : Option Text → Bool
  is_trap none = false
  is_trap (some mnemonic) = starts_with (codes "-->") mnemonic

  -- The values between the tabs.
  unfoldable pub read_values : List Text → Result Error TraceEvent
  unfolding read_accesses make_store parse_hex starts_with
  read_values (time_str ∷ cycle_str ∷ pc_str ∷ instruction_str ∷ more) = do
    time ← ok_or (from_str_radix 10 64 (trim time_str)) parsing
    cycle ← ok_or (from_str_radix 10 64 (trim cycle_str)) parsing
    pc ← parse_hex w pc_str
    instruction ← parse_hex 32 (trim instruction_str)
    found ← read_accesses (get_elem? more 2)
    store ← make_store found.store_val found.phys_addr
    ok (record {
      time = time;
      cycle = cycle;
      pc = pc;
      trap = is_trap (get_elem? more 0);
      instruction = some instruction;
      assembly_mnemonic = Option.get_or (get_elem? more 0) [];
      assembly_args = Option.get_or (get_elem? more 1) [];
      xwrite = found.xwrite;
      store = store;
    })
  read_values [] = err too_few_values
  read_values (a ∷ []) = err too_few_values
  read_values (a ∷ b ∷ []) = err too_few_values
  read_values (a ∷ b ∷ c ∷ []) = err too_few_values

  unfoldable pub read_line : Text → Result Error TraceEvent
  unfolding read_values
  read_line line = read_values (split b'\t' line)

  -- `lines` are those of the file; opening it and errors of reading are the host's.
  unfoldable pub read_trace : List Text → Result Error (List TraceEvent)
  unfolding read_line
  read_trace [] = ok []
  read_trace (line ∷ lines) = elim (starts_with (codes "Time") line) [
    | true ↦ read_trace lines
    | false ↦ do event ← read_line line; events ← read_trace lines; ok (event ∷ events)
  ]
