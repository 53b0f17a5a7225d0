-- ===== src/CheriotIbexTrace/Valid.antt =====
-- What is known of an event that the reader of Cheriot-Ibex traces returns.
use riscv_trace_debugger.Prelude.{
  ℕ, zero, suc, ◌+◌, ◌^◌, ◌≤◌, ◌<◌, refl, Option, none, some, List, [], ◌∷◌, ◌++◌, arith,
  Option-cases, Bool-cases, inl, inr, get_elem?, not,
}
use riscv_trace_debugger.Fallible.{ok_or, Ensures, Ensures-bind, Ensures-guard}
use riscv_trace_debugger.Trace.{Text, Data}
use riscv_trace_debugger.Trace.Typed.{Fits, FreshWrite, FreshStore, IsTyped, AllTyped}
use riscv_trace_debugger.Str.{
  codes, is_some, strip_prefix, starts_with, trim, split, split_once, split_ascii_whitespace,
  from_str_radix, decimal,
}
use riscv_trace_debugger.CheriotIbexTrace.{
  parsing, multiple_stores, multiple_pas, multiple_x_writes, Accesses, no_accesses,
  strip_hex_prefix, parse_hex, read_store_val, read_store, read_pa, make_store, read_x_value,
  read_x, read_xs, read_part, read_parts, read_accesses, read_values, read_line, read_trace,
}
use riscv_trace_debugger.CheriotIbexTrace.Fits.{
  FitsData, FitsStore, number_fits, any, parse_hex_fits, read_store_val-FitsData,
}

record Bounded (w : ℕ) (acc : Accesses) : Type 0 where
  phys_addr : Fits 64 acc.phys_addr
  store_val : FitsStore acc.store_val
  xwrite : FreshWrite w acc.xwrite

read_store-Bounded :
    (w : ℕ) (val : Text) (acc : Accesses)
    → Bounded w acc
    → Ensures (Bounded w) (read_store w val acc)
unfolding read_store
read_store-Bounded w val acc b =
    Ensures-guard (Bounded w) (not (is_some acc.store_val)) multiple_stores _ (
      Ensures-bind FitsData (Bounded w) (read_store_val w val) _ (read_store_val-FitsData w val)
        (λ v fits. record { phys_addr = b.phys_addr; store_val = fits; xwrite = b.xwrite }))

read_pa-Bounded :
    (w : ℕ) (val : Text) (acc : Accesses) → Bounded w acc → Ensures (Bounded w) (read_pa val acc)
unfolding read_pa
read_pa-Bounded w val acc b =
    Ensures-guard (Bounded w) (not (is_some acc.phys_addr)) multiple_pas _ (
      Ensures-bind (λ _. Unit) (Bounded w) (strip_hex_prefix val) _ (any _)
        λ digits _.
          Ensures-bind (λ v. v < 2 ^ 64) (Bounded w) (parse_hex 64 digits) _
            (parse_hex_fits 64 digits)
            λ v fits. record { phys_addr = fits; store_val = b.store_val; xwrite = b.xwrite })

read_x_value_fits : (w : ℕ) (val : Text) → Ensures (λ v. v < 2 ^ w) (read_x_value w val)
unfolding read_x_value
read_x_value_fits w val = elim (Option-cases (split_once b'+' val)) [
  | inl e ↦
      rw (e, read_x_value)
        (Ensures-bind (λ _. Unit) (λ v. v < 2 ^ w) (strip_hex_prefix val) _ (any _)
          λ digits _. parse_hex_fits w digits)
  | inr ((first, metadata), e) ↦
      rw (e, read_x_value)
        (Ensures-bind (λ _. Unit) (λ v. v < 2 ^ w) (strip_hex_prefix first) _ (any _)
          λ digits _. parse_hex_fits w digits)
]

read_x-Bounded :
    (w index : ℕ) (part : Text) (acc : Accesses)
    → 1 ≤ index
    → index < 32
    → Bounded w acc
    → Ensures (Bounded w) (read_x w index part acc)
unfolding read_x strip_prefix
read_x-Bounded w index part acc low high b =
    elim (Option-cases (strip_prefix (codes "x" ++ decimal index ++ codes "=") part)) [
      | inl e ↦ rw e b
      | inr (val, e) ↦ rw e (
          Ensures-guard (Bounded w) (not (is_some acc.xwrite)) multiple_x_writes _ (
            Ensures-bind (λ v. v < 2 ^ w) (Bounded w) (read_x_value w val) _
              (read_x_value_fits w val)
              (λ v fits. record {
                phys_addr = b.phys_addr;
                store_val = b.store_val;
                xwrite = (low, high, fits, refl);
              })))
    ]

read_xs-Bounded :
    (w rounds index : ℕ) (part : Text) (acc : Accesses)
    → 1 ≤ index
    → index + rounds ≤ 32
    → Bounded w acc
    → Ensures (Bounded w) (read_xs w rounds index part acc)
unfolding read_xs
read_xs-Bounded w zero index part acc low high b = b
read_xs-Bounded w (suc rounds) index part acc low high b =
    Ensures-bind (Bounded w) (Bounded w) (read_x w index part acc) _
      (read_x-Bounded w index part acc low (omega arith) b)
      (λ acc' b'. read_xs-Bounded w rounds (index + 1) part acc' (omega arith) (omega arith) b')

read_part-Bounded :
    (w : ℕ) (part : Text) (acc : Accesses)
    → Bounded w acc
    → Ensures (Bounded w) (read_part w part acc)
unfolding read_part strip_prefix
read_part-Bounded w part acc b = elim (Option-cases (strip_prefix (codes "store:") part)) [
  | inr (val, e) ↦ rw e (read_store-Bounded w val acc b)
  | inl e ↦ elim (Option-cases (strip_prefix (codes "PA:") part)) [
    | inr (val, f) ↦ rw (e, f) (read_pa-Bounded w val acc b)
    | inl f ↦ rw (e, f) (read_xs-Bounded w 31 1 part acc (omega arith) (omega arith) b)
  ]
]

read_parts-Bounded :
    (w : ℕ) (parts : List Text) (acc : Accesses)
    → Bounded w acc
    → Ensures (Bounded w) (read_parts w parts acc)
unfolding read_parts
read_parts-Bounded w [] acc b = b
read_parts-Bounded w (part ∷ parts) acc b =
    Ensures-bind (Bounded w) (Bounded w) (read_part w part acc) _ (read_part-Bounded w part acc b)
      (λ acc' b'. read_parts-Bounded w parts acc' b')

read_accesses-Bounded :
    (w : ℕ) (accesses : Option Text) → Ensures (Bounded w) (read_accesses w accesses)
unfolding read_accesses
read_accesses-Bounded w none = record { phys_addr = tt; store_val = tt; xwrite = tt }
read_accesses-Bounded w (some accesses) =
    read_parts-Bounded w (split_ascii_whitespace accesses) no_accesses
      (record { phys_addr = tt; store_val = tt; xwrite = tt })

make_store-FreshStore :
    (val : Option Data) (addr : Option ℕ)
    → FitsStore val
    → Fits 64 addr
    → Ensures FreshStore (make_store val addr)
unfolding make_store
make_store-FreshStore none addr f h = tt
make_store-FreshStore (some val) none f h = tt
make_store-FreshStore (some val) (some addr) f h = (h, f, refl)

module _ (w : ℕ) where
  read_values-IsTyped : (values : List Text) → Ensures (IsTyped w) (read_values w values)
  unfolding read_values
  read_values-IsTyped [] = tt
  read_values-IsTyped (a ∷ []) = tt
  read_values-IsTyped (a ∷ b ∷ []) = tt
  read_values-IsTyped (a ∷ b ∷ c ∷ []) = tt
  read_values-IsTyped (a ∷ b ∷ c ∷ d ∷ more) =
      Ensures-bind (λ v. v < 2 ^ 64) (IsTyped w) (ok_or (from_str_radix 10 64 (trim a)) parsing) _
        (number_fits 10 64 (trim a))
        λ time time_fits.
          Ensures-bind (λ v. v < 2 ^ 64) (IsTyped w) (ok_or (from_str_radix 10 64 (trim b)) parsing)
            _ (number_fits 10 64 (trim b))
            λ cycle cycle_fits.
              Ensures-bind (λ v. v < 2 ^ w) (IsTyped w) (parse_hex w c) _ (parse_hex_fits w c)
                λ pc pc_fits.
                  Ensures-bind (λ v. v < 2 ^ 32) (IsTyped w) (parse_hex 32 (trim d)) _
                    (parse_hex_fits 32 (trim d))
                    λ instruction instruction_fits.
                      Ensures-bind (Bounded w) (IsTyped w) (read_accesses w (get_elem? more 2)) _
                        (read_accesses-Bounded w (get_elem? more 2))
                        λ found b.
                          Ensures-bind FreshStore (IsTyped w)
                            (make_store found.store_val found.phys_addr) _
                            (make_store-FreshStore found.store_val found.phys_addr b.store_val
                              b.phys_addr)
                            λ store fresh. record {
                              time = time_fits;
                              cycle = cycle_fits;
                              pc = pc_fits;
                              instruction = instruction_fits;
                              xwrite = b.xwrite;
                              store = fresh;
                            }

  pub read_line-IsTyped : (line : Text) → Ensures (IsTyped w) (read_line w line)
  unfolding read_line
  read_line-IsTyped line = read_values-IsTyped (split b'\t' line)

  -- Every event of a trace that the reader returns has its numbers in the range of their types: the
  -- times, `pc` and the instruction, a write goes to one of x1 to x31, a store fits its width, and
  -- no value from before is filled in.
  pub cheriot_ibex_trace-AllTyped : (lines : List Text) → Ensures (AllTyped w) (read_trace w lines)
  unfolding read_trace starts_with
  cheriot_ibex_trace-AllTyped [] = tt
  cheriot_ibex_trace-AllTyped (line ∷ lines) = elim (Bool-cases (starts_with (codes "Time") line)) [
    | inl e ↦ rw e (cheriot_ibex_trace-AllTyped lines)
    | inr e ↦ rw e (
        Ensures-bind (IsTyped w) (AllTyped w) (read_line w line) _ (read_line-IsTyped line)
          λ event typed.
            Ensures-bind (AllTyped w) (AllTyped w) (read_trace w lines) _
              (cheriot_ibex_trace-AllTyped lines) λ events all. (typed, all))
  ]
