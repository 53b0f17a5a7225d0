-- ===== src/IbexTrace/RoundTrip.antt =====
-- A line that was printed for an event is read as that event.
use mathlib.Core.Option
use riscv_trace_debugger.Prelude.{
  ℕ, ◌^◌, ◌<◌, ◌≡◌, refl, sym, subst, true, false, Option, none, some, List, [], ◌∷◌, ◌++◌, ◌==◌,
  ltb, arith, ok,
}
use riscv_trace_debugger.Trace.{
  Text, Data, u8, u16, u32, u64, u128, XRegWrite, MemWrite, TraceEvent,
}
use riscv_trace_debugger.Trace.Typed.{fresh, map-fresh, Fits, FreshWrite, FreshStore, IsTyped}
use riscv_trace_debugger.Cpu.Replay.{width, payload}
use riscv_trace_debugger.Memory.{size}
use riscv_trace_debugger.Str.{split}
use riscv_trace_debugger.Str.Display.Read.{printed, printed-AllPlain, from_str_radix-printed}
use riscv_trace_debugger.Str.Split.{
  joined, NoSep, AllNoSep, trim-AllPlain, split_by-joined, AllPlain-no_tab, joined-no_tab,
  split_ascii_whitespace-joined,
}
use riscv_trace_debugger.IbexTrace.{
  Opcodes, AccessWidth, byte, half, word, instruction_access_width, Accesses, no_accesses,
  read_parts, read_accesses, store_data, make_store, read_values, read_line,
}
use riscv_trace_debugger.IbexTrace.Print.{
  hex, x_parts, store_parts, access_parts, access_parts-AllWords, read_part-x_part, read_part-store,
  read_part-pa,
}

-- The width at which an instruction accesses memory is that of a value.
abbrev pub AtWidth : Option AccessWidth → Data → Type 0
AtWidth a (u8 v) = a ≡ some byte
AtWidth a (u16 v) = a ≡ some half
AtWidth a (u32 v) = a ≡ some word
AtWidth a (u64 v) = ⊥
AtWidth a (u128 v) = ⊥

abbrev pub StoresAtWidth : Option AccessWidth → Option MemWrite → Type 0
StoresAtWidth a none = Unit
StoresAtWidth a (some st) = AtWidth a st.value

store_data_lem :
    (a : Option AccessWidth) (d : Data)
    → AtWidth a d
    → payload d < 256 ^ size (width d)
    → store_data (payload d) a ≡ ok d
unfolding store_data
store_data_lem a (u8 v) e h = let fits : ltb v (2 ^ 8) ≡ true = ground arith in rw (e, fits) refl
store_data_lem a (u16 v) e h = let fits : ltb v (2 ^ 16) ≡ true = ground arith in rw (e, fits) refl
store_data_lem a (u32 v) e h = let fits : ltb v (2 ^ 32) ≡ true = ground arith in rw (e, fits) refl
store_data_lem a (u64 v) e h = absurd e
store_data_lem a (u128 v) e h = absurd e

payload-lt :
    (a : Option AccessWidth) (d : Data)
    → AtWidth a d
    → payload d < 256 ^ size (width d)
    → payload d < 2 ^ 64
payload-lt a (u8 v) e h = omega (arith, h)
payload-lt a (u16 v) e h = omega (arith, h)
payload-lt a (u32 v) e h = omega (arith, h)
payload-lt a (u64 v) e h = absurd e
payload-lt a (u128 v) e h = absurd e

-- What the loop over the accesses finds.
abbrev found_in : Option XRegWrite → Option MemWrite → Accesses
found_in xwrite store = record {
  phys_addr = Option.map (λ st. st.phys_addr) store;
  store_val = Option.map (λ st. payload st.value) store;
  xwrite = Option.map fresh xwrite;
}

module _ (w : ℕ) (some_bits : 0 < w) (a : Option AccessWidth) where
  read_store_parts :
      (store : Option MemWrite) (acc : Accesses)
      → FreshStore store
      → StoresAtWidth a store
      → acc.store_val ≡ none
      → acc.phys_addr ≡ none
      → read_parts w (store_parts store) acc
        ≡ ok (record (found_in none store) { xwrite = acc.xwrite })
  unfolding read_parts
  read_store_parts none acc h at e f =
      λ i. ok (record { phys_addr = f i; store_val = e i; xwrite = acc.xwrite })
  read_store_parts (some st) acc h at e f =
      rw
        (
          read_part-store w some_bits (payload st.value) acc (payload-lt a st.value at h.1) e,
          read_part-pa w some_bits st.phys_addr (record acc { store_val = some (payload st.value) })
              h.0 f,
          read_parts,
        )
        refl

  read_access_parts :
      (xwrite : Option XRegWrite) (store : Option MemWrite)
      → FreshWrite w xwrite
      → FreshStore store
      → StoresAtWidth a store
      → read_parts w (x_parts w xwrite ++ store_parts store) no_accesses
        ≡ ok (found_in xwrite store)
  unfolding read_parts
  read_access_parts none store x h at = read_store_parts store no_accesses h at refl refl
  read_access_parts (some x) store (low, high, fits, old) h at =
      rw (read_part-x_part w some_bits x low high fits no_accesses refl, read_parts)
        (read_store_parts store (record no_accesses { xwrite = some (fresh x) }) h at refl refl)

  read_accesses-access_parts :
      (e : TraceEvent)
      → FreshWrite w e.xwrite
      → FreshStore e.store
      → StoresAtWidth a e.store
      → read_accesses w (some (joined 32 (access_parts w e))) ≡ ok (found_in e.xwrite e.store)
  unfolding read_accesses
  read_accesses-access_parts e x h at =
      rw
        (
          split_ascii_whitespace-joined (access_parts w e) (access_parts-AllWords w e x),
          read_accesses,
        )
        (read_access_parts e.xwrite e.store x h at)

make_store-found :
    (ops : Opcodes) (i : ℕ) (store : Option MemWrite)
    → FreshStore store
    → StoresAtWidth (instruction_access_width ops i) store
    → make_store ops i
        (Option.map (λ st. payload st.value) store)
        (Option.map (λ st. st.phys_addr) store)
      ≡ ok store
unfolding make_store
make_store-found ops i none h at = refl
make_store-found ops i (some st) h at =
    rw (store_data_lem (instruction_access_width ops i) st.value at h.1, make_store)
      (λ k.
        ok (some (record { phys_addr = st.phys_addr; value = st.value; prev_value = sym h.2 k })))

-- The columns of a line for an event of the instruction `i`, with a tab between them.
abbrev later_columns : ℕ → ℕ → TraceEvent → List Text
later_columns w i e =
    printed 10 1 64 e.cycle
    ∷ hex w e.pc
    ∷ hex 32 i
    ∷ e.assembly_mnemonic
    ∷ e.assembly_args
    ∷ joined 32 (access_parts w e)
    ∷ []

abbrev columns : ℕ → ℕ → TraceEvent → List Text
columns w i e = printed 10 1 64 e.time ∷ later_columns w i e

abbrev pub print_line : ℕ → ℕ → TraceEvent → Text
print_line w i e = joined 9 (columns w i e)

module _ (w : ℕ) (some_bits : 0 < w) (ops : Opcodes) (i : ℕ) (e : TraceEvent) (typed : IsTyped w e)
    (runs : e.instruction ≡ some i) (no_trap : e.trap ≡ false)
    (at_width : StoresAtWidth (instruction_access_width ops i) e.store) where
  instruction-lt : i < 2 ^ 32
  instruction-lt = subst (Fits 32) runs typed.instruction

  read_values-columns : read_values w ops (columns w i e) ≡ ok e
  unfolding read_values
  read_values-columns =
      rw
        (
          trim-AllPlain (printed 10 1 64 e.time)
              (printed-AllPlain 10 (omega arith) (omega arith) 1 64 e.time),
          trim-AllPlain (printed 10 1 64 e.cycle)
              (printed-AllPlain 10 (omega arith) (omega arith) 1 64 e.cycle),
          trim-AllPlain (hex 32 i) (printed-AllPlain 16 (omega arith) (omega arith) 8 32 i),
          from_str_radix-printed 10 (omega arith) (omega arith) 1 64 e.time (omega arith)
              typed.time,
          from_str_radix-printed 10 (omega arith) (omega arith) 1 64 e.cycle (omega arith)
              typed.cycle,
          from_str_radix-printed 16 (omega arith) (omega arith) 8 w e.pc some_bits typed.pc,
          from_str_radix-printed 16 (omega arith) (omega arith) 8 32 i (omega arith) instruction-lt,
          read_accesses-access_parts w some_bits (instruction_access_width ops i) e typed.xwrite
              typed.store at_width,
          make_store-found ops i e.store typed.store at_width,
          read_values,
        )
        (λ k. ok (record e {
          trap = sym no_trap k;
          instruction = sym runs k;
          xwrite = map-fresh w e.xwrite typed.xwrite k;
        }))

  -- A line of a trace, printed for an event that is no trap, whose instruction has the width of
  -- the store of the event, if it has one, and whose mnemonic and arguments have no tab, is read
  -- as that very event.
  pub read_line-print_line :
      NoSep (λ c. c == 9) e.assembly_mnemonic
      → NoSep (λ c. c == 9) e.assembly_args
      → read_line w ops (print_line w i e) ≡ ok e
  unfolding read_line split
  read_line-print_line mnemonic args =
      let plains : AllNoSep (λ c. c == 9) (later_columns w i e) = (
        plain_10 e.cycle,
        (
          plain_16 w e.pc,
          (
            plain_16 32 i,
            (
              mnemonic,
              (
                args,
                (joined-no_tab (access_parts w e) (access_parts-AllWords w e typed.xwrite), tt),
              ),
            ),
          ),
        ),
      ) in
      rw
        (
          split_by-joined (λ c. c == 9) 9 (printed 10 1 64 e.time) (later_columns w i e) refl
              (plain_10 e.time) plains,
          read_line,
          split,
        )
        read_values-columns
    where
      plain_10 : (n : ℕ) → NoSep (λ c. c == 9) (printed 10 1 64 n)
      plain_10 n = AllPlain-no_tab _ (printed-AllPlain 10 (omega arith) (omega arith) 1 64 n)

      plain_16 : (bits n : ℕ) → NoSep (λ c. c == 9) (hex bits n)
      plain_16 bits n = AllPlain-no_tab _ (printed-AllPlain 16 (omega arith) (omega arith) 8 bits n)
