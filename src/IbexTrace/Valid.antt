-- ===== src/IbexTrace/Valid.antt =====
-- What is known of an event that the reader of Ibex traces returns.
use riscv_trace_debugger.Prelude.{
  ℕ, zero, suc, ◌+◌, ◌^◌, ◌≤◌, ◌<◌, refl, Option, none, some, List, [], ◌∷◌, ◌++◌, arith,
  Option-cases, Bool-cases, inl, inr, get_elem?, ltb, not,
}
use riscv_trace_debugger.Fallible.{ok_or, Ensures, Ensures-bind, Ensures-guard, Ensures-ok_or}
use riscv_trace_debugger.Trace.{Text, Data}
use riscv_trace_debugger.Trace.Typed.{Fits, FreshWrite, FreshStore, IsTyped, AllTyped}
use riscv_trace_debugger.Cpu.Replay.{width, payload}
use riscv_trace_debugger.Memory.{size}
use riscv_trace_debugger.Str.{
  codes, is_some, strip_prefix, starts_with, trim, split, split_ascii_whitespace, from_str_radix,
  decimal,
}
use riscv_trace_debugger.Str.Bounds.{from_str_radix-lt}
use riscv_trace_debugger.IbexTrace.{
  Error, parsing, multiple_stores, multiple_pas, multiple_x_writes, Opcodes, AccessWidth, byte,
  half, word, instruction_access_width, Accesses, no_accesses, read_store, read_pa, store_data,
  make_store, read_x, read_xs, read_part, read_parts, read_accesses, read_values, read_line,
  read_trace,
}

record Bounded (w : ℕ) (acc : Accesses) : Type 0 where
  phys_addr : Fits 64 acc.phys_addr
  xwrite : FreshWrite w acc.xwrite

number_fits :
    (radix bits : ℕ) (s : Text)
    → Ensures (λ v. v < 2 ^ bits) (ok_or {E = Error} (from_str_radix radix bits s) parsing)
number_fits radix bits s =
    Ensures-ok_or (λ v. v < 2 ^ bits) (from_str_radix radix bits s) parsing
      (λ v. from_str_radix-lt radix bits s)

read_store-Bounded :
    (w : ℕ) (val : Text) (acc : Accesses) → Bounded w acc → Ensures (Bounded w) (read_store val acc)
unfolding read_store
read_store-Bounded w val acc b =
    Ensures-guard (Bounded w) (not (is_some acc.store_val)) multiple_stores _ (
      Ensures-bind (λ v. v < 2 ^ 64) (Bounded w) (ok_or (from_str_radix 16 64 val) parsing) _
        (number_fits 16 64 val) (λ v fits. record { phys_addr = b.phys_addr; xwrite = b.xwrite }))

read_pa-Bounded :
    (w : ℕ) (val : Text) (acc : Accesses) → Bounded w acc → Ensures (Bounded w) (read_pa val acc)
unfolding read_pa
read_pa-Bounded w val acc b =
    Ensures-guard (Bounded w) (not (is_some acc.phys_addr)) multiple_pas _ (
      Ensures-bind (λ v. v < 2 ^ 64) (Bounded w) (ok_or (from_str_radix 16 64 val) parsing) _
        (number_fits 16 64 val) (λ v fits. record { phys_addr = fits; xwrite = b.xwrite }))

read_x-Bounded :
    (w index : ℕ) (part : Text) (acc : Accesses)
    → 1 ≤ index
    → index < 32
    → Bounded w acc
    → Ensures (Bounded w) (read_x w index part acc)
unfolding read_x strip_prefix
read_x-Bounded w index part acc low high b =
    elim (Option-cases (strip_prefix (codes "x" ++ decimal index ++ codes "=0x") part)) [
      | inl e ↦ rw e b
      | inr (val, e) ↦ rw e (
          Ensures-guard (Bounded w) (not (is_some acc.xwrite)) multiple_x_writes _ (
            Ensures-bind (λ v. v < 2 ^ w) (Bounded w) (ok_or (from_str_radix 16 w val) parsing) _
              (number_fits 16 w val)
              (λ v fits. record { phys_addr = b.phys_addr; xwrite = (low, high, fits, refl) })))
    ]

read_xs-Bounded :
    (w rounds index : ℕ) (part : Text) (acc : Accesses)
    → 1 ≤ index
    → index + rounds ≤ 32
    → Bounded w acc
    → Ensures (Bounded w) (read_xs w rounds index part acc)
unfolding read_xs
read_xs-Bounded w zero index part acc low high b = b
read_xs-Bounded w (suc rounds) index part acc low high b =
    Ensures-bind (Bounded w) (Bounded w) (read_x w index part acc) _
      (read_x-Bounded w index part acc low (omega arith) b)
      (λ acc' b'. read_xs-Bounded w rounds (index + 1) part acc' (omega arith) (omega arith) b')

read_part-Bounded :
    (w : ℕ) (part : Text) (acc : Accesses)
    → Bounded w acc
    → Ensures (Bounded w) (read_part w part acc)
unfolding read_part strip_prefix
read_part-Bounded w part acc b = elim (Option-cases (strip_prefix (codes "store:0x") part)) [
  | inr (val, e) ↦ rw e (read_store-Bounded w val acc b)
  | inl e ↦ elim (Option-cases (strip_prefix (codes "PA:0x") part)) [
    | inr (val, f) ↦ rw (e, f) (read_pa-Bounded w val acc b)
    | inl f ↦ rw (e, f) (read_xs-Bounded w 31 1 part acc (omega arith) (omega arith) b)
  ]
]

read_parts-Bounded :
    (w : ℕ) (parts : List Text) (acc : Accesses)
    → Bounded w acc
    → Ensures (Bounded w) (read_parts w parts acc)
unfolding read_parts
read_parts-Bounded w [] acc b = b
read_parts-Bounded w (part ∷ parts) acc b =
    Ensures-bind (Bounded w) (Bounded w) (read_part w part acc) _ (read_part-Bounded w part acc b)
      (λ acc' b'. read_parts-Bounded w parts acc' b')

read_accesses-Bounded :
    (w : ℕ) (accesses : Option Text) → Ensures (Bounded w) (read_accesses w accesses)
unfolding read_accesses
read_accesses-Bounded w none = record { phys_addr = tt; xwrite = tt }
read_accesses-Bounded w (some accesses) =
    read_parts-Bounded w (split_ascii_whitespace accesses) no_accesses
      (record { phys_addr = tt; xwrite = tt })

abbrev FitsData : Data → Type 0
FitsData value = payload value < 256 ^ size (width value)

store_data-FitsData :
    (val : ℕ) (width : Option AccessWidth) → Ensures FitsData (store_data val width)
unfolding store_data
store_data-FitsData val none = tt
store_data-FitsData val (some byte) = elim (Bool-cases (ltb val (2 ^ 8))) [
  | inl e ↦ rw e (ground arith)
  | inr e ↦ rw e tt
]
store_data-FitsData val (some half) = elim (Bool-cases (ltb val (2 ^ 16))) [
  | inl e ↦ rw e (ground arith)
  | inr e ↦ rw e tt
]
store_data-FitsData val (some word) = elim (Bool-cases (ltb val (2 ^ 32))) [
  | inl e ↦ rw e (ground arith)
  | inr e ↦ rw e tt
]

make_store-FreshStore :
    (ops : Opcodes) (instruction : ℕ) (val addr : Option ℕ)
    → Fits 64 addr
    → Ensures FreshStore (make_store ops instruction val addr)
unfolding make_store
make_store-FreshStore ops instruction none addr h = tt
make_store-FreshStore ops instruction (some val) none h = tt
make_store-FreshStore ops instruction (some val) (some addr) h =
    Ensures-bind FitsData FreshStore (store_data val (instruction_access_width ops instruction)) _
      (store_data-FitsData val (instruction_access_width ops instruction))
      (λ value fits. (h, fits, refl))

module _ (w : ℕ) (ops : Opcodes) where
  read_values-IsTyped : (values : List Text) → Ensures (IsTyped w) (read_values w ops values)
  unfolding read_values
  read_values-IsTyped [] = tt
  read_values-IsTyped (a ∷ []) = tt
  read_values-IsTyped (a ∷ b ∷ []) = tt
  read_values-IsTyped (a ∷ b ∷ c ∷ []) = tt
  read_values-IsTyped (a ∷ b ∷ c ∷ d ∷ more) =
      Ensures-bind (λ v. v < 2 ^ 64) (IsTyped w) (ok_or (from_str_radix 10 64 (trim a)) parsing) _
        (number_fits 10 64 (trim a))
        λ time time_fits.
          Ensures-bind (λ v. v < 2 ^ 64) (IsTyped w) (ok_or (from_str_radix 10 64 (trim b)) parsing)
            _ (number_fits 10 64 (trim b))
            λ cycle cycle_fits.
              Ensures-bind (λ v. v < 2 ^ w) (IsTyped w) (ok_or (from_str_radix 16 w c) parsing) _
                (number_fits 16 w c)
                λ pc pc_fits.
                  Ensures-bind (λ v. v < 2 ^ 32) (IsTyped w)
                    (ok_or (from_str_radix 16 32 (trim d)) parsing) _ (number_fits 16 32 (trim d))
                    λ instruction instruction_fits.
                      Ensures-bind (Bounded w) (IsTyped w) (read_accesses w (get_elem? more 2)) _
                        (read_accesses-Bounded w (get_elem? more 2))
                        λ found b.
                          Ensures-bind FreshStore (IsTyped w)
                            (make_store ops instruction found.store_val found.phys_addr) _
                            (make_store-FreshStore ops instruction found.store_val found.phys_addr
                              b.phys_addr)
                            λ store fresh. record {
                              time = time_fits;
                              cycle = cycle_fits;
                              pc = pc_fits;
                              instruction = instruction_fits;
                              xwrite = b.xwrite;
                              store = fresh;
                            }

  pub read_line-IsTyped : (line : Text) → Ensures (IsTyped w) (read_line w ops line)
  unfolding read_line
  read_line-IsTyped line = read_values-IsTyped (split b'\t' line)

  -- Every event of a trace that the reader returns has its numbers in the range of their types: the
  -- times, `pc` and the instruction, a write goes to one of x1 to x31, a store fits its width, and
  -- no value from before is filled in.
  pub ibex_trace-AllTyped : (lines : List Text) → Ensures (AllTyped w) (read_trace w ops lines)
  unfolding read_trace starts_with
  ibex_trace-AllTyped [] = tt
  ibex_trace-AllTyped (line ∷ lines) = elim (Bool-cases (starts_with (codes "Time") line)) [
    | inl e ↦ rw e (ibex_trace-AllTyped lines)
    | inr e ↦ rw e (
        Ensures-bind (IsTyped w) (AllTyped w) (read_line w ops line) _ (read_line-IsTyped line)
          λ event typed.
            Ensures-bind (AllTyped w) (AllTyped w) (read_trace w ops lines) _
              (ibex_trace-AllTyped lines) λ events all. (typed, all))
  ]
