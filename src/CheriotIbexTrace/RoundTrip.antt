-- ===== src/CheriotIbexTrace/RoundTrip.antt =====
-- A line of a Cheriot-Ibex trace that was printed for an event is read as that event.
use mathlib.Core.Option
use mathlib.Core.List.{cons-ne-nil}
use riscv_trace_debugger.Prelude.{
  ℕ, ◌<◌, ◌≡◌, refl, sym, subst, Option, none, some, List, [], ◌∷◌, ◌++◌, ◌==◌, arith, ok,
}
use riscv_trace_debugger.Trace.{Text, XRegWrite, MemWrite, TraceEvent}
use riscv_trace_debugger.Trace.Typed.{fresh, map-fresh, Fits, FreshWrite, FreshStore, IsTyped}
use riscv_trace_debugger.Str.{codes, decimal, split, starts_with, is_ascii_whitespace}
use riscv_trace_debugger.Str.Display.Read.{
  printed, AllPlain, AllPlain-append, printed-AllPlain, from_str_radix-printed,
}
use riscv_trace_debugger.Str.Split.{
  joined, NoSep, AllNoSep, NoSep-append, AllWords, AllPlain-NoSep, AllPlain-no_tab, joined-no_tab,
  trim-AllPlain, split_by-joined, split_ascii_whitespace-joined,
}
use riscv_trace_debugger.Str.Registers.{decimal-AllPlain}
use riscv_trace_debugger.CheriotIbexTrace.{
  Accesses, no_accesses, read_parts, read_accesses, make_store, read_values, read_line,
}
use riscv_trace_debugger.CheriotIbexTrace.Print.{
  NoSpace, store_text, x_text, hex_word, hex_word-AllPlain, store_text-NoSep, x_text-NoSep,
}
use riscv_trace_debugger.CheriotIbexTrace.Values.{parse_hex-printed}
use riscv_trace_debugger.CheriotIbexTrace.Parts.{
  Form, StoreInForm, x_part, x_parts, store_parts, access_parts, found_in, read_part-x_part,
  read_part-store, read_part-pa,
}

module _ (w : ℕ) (some_bits : 0 < w) (form : Form) where
  read_store_parts :
      (store : Option MemWrite) (acc : Accesses)
      → FreshStore store
      → StoreInForm w form.store store
      → acc.store_val ≡ none
      → acc.phys_addr ≡ none
      → read_parts w (store_parts w form store) acc
        ≡ ok (record (found_in none store) { xwrite = acc.xwrite })
  unfolding read_parts
  read_store_parts none acc h in_form e f =
      λ i. ok (record { phys_addr = f i; store_val = e i; xwrite = acc.xwrite })
  read_store_parts (some st) acc h in_form e f =
      rw
        (
          read_part-store w some_bits form st.value acc in_form h.1 e,
          read_part-pa w some_bits form st.phys_addr (record acc { store_val = some st.value }) h.0
              f,
          read_parts,
        )
        refl

  read_access_parts :
      (xwrite : Option XRegWrite) (store : Option MemWrite)
      → FreshWrite w xwrite
      → FreshStore store
      → StoreInForm w form.store store
      → read_parts w (x_parts w form xwrite ++ store_parts w form store) no_accesses
        ≡ ok (found_in xwrite store)
  unfolding read_parts
  read_access_parts none store x h in_form = read_store_parts store no_accesses h in_form refl refl
  read_access_parts (some x) store (low, high, fits, old) h in_form =
      rw (read_part-x_part w some_bits form x low high fits no_accesses refl, read_parts)
        (read_store_parts store (record no_accesses { xwrite = some (fresh x) }) h in_form refl
          refl)

  x_part-NoSep :
      (x : XRegWrite)
      → x.index < 32
      → NoSpace form.metadata
      → NoSep is_ascii_whitespace (x_part w form x)
  unfolding is_ascii_whitespace
  x_part-NoSep x high h = (
    refl,
    NoSep-append is_ascii_whitespace (decimal x.index) (codes "=" ++ x_text w x.value form.metadata)
        (AllPlain-NoSep (decimal x.index) (decimal-AllPlain x.index (omega (arith, high))))
        (refl, x_text-NoSep w x.value form.metadata h),
  )

  store_parts-AllWords : (store : Option MemWrite) → AllWords (store_parts w form store)
  store_parts-AllWords none = tt
  store_parts-AllWords (some st) = (
    cons-ne-nil _ _,
    NoSep-append is_ascii_whitespace (codes "store:") (store_text w form.store st.value)
        (AllPlain-NoSep (codes "store:") (ground arith)) (store_text-NoSep w form.store st.value),
    (
      cons-ne-nil _ _,
      AllPlain-NoSep (codes "PA:" ++ hex_word 64 st.phys_addr) (
          AllPlain-append (codes "PA:") (hex_word 64 st.phys_addr) (ground arith)
            (hex_word-AllPlain 64 st.phys_addr)),
      tt,
    ),
  )

  all_parts-AllWords :
      (xwrite : Option XRegWrite) (store : Option MemWrite)
      → FreshWrite w xwrite
      → NoSpace form.metadata
      → AllWords (x_parts w form xwrite ++ store_parts w form store)
  all_parts-AllWords none store h metadata = store_parts-AllWords store
  all_parts-AllWords (some x) store h metadata =
      (cons-ne-nil _ _, x_part-NoSep x h.1 metadata, store_parts-AllWords store)

make_store-found :
    (store : Option MemWrite)
    → FreshStore store
    → make_store (Option.map (λ st. st.value) store) (Option.map (λ st. st.phys_addr) store)
      ≡ ok store
unfolding make_store
make_store-found none h = refl
make_store-found (some st) h =
    λ k. ok (some (record { phys_addr = st.phys_addr; value = st.value; prev_value = sym h.2 k }))

-- The columns of a line for an event of the instruction `i`, with a tab between them.
abbrev later_columns : ℕ → Form → ℕ → TraceEvent → List Text
later_columns w form i e =
    printed 10 1 64 e.cycle
    ∷ printed 16 8 w e.pc
    ∷ printed 16 8 32 i
    ∷ e.assembly_mnemonic
    ∷ e.assembly_args
    ∷ joined 32 (access_parts w form e)
    ∷ []

abbrev columns : ℕ → Form → ℕ → TraceEvent → List Text
columns w form i e = printed 10 1 64 e.time ∷ later_columns w form i e

abbrev pub print_line : ℕ → Form → ℕ → TraceEvent → Text
print_line w form i e = joined 9 (columns w form i e)

plain_10 : (n : ℕ) → AllPlain (printed 10 1 64 n)
plain_10 n = printed-AllPlain 10 (omega arith) (omega arith) 1 64 n

plain_16 : (bits n : ℕ) → AllPlain (printed 16 8 bits n)
plain_16 bits n = printed-AllPlain 16 (omega arith) (omega arith) 8 bits n

module _ (w : ℕ) (some_bits : 0 < w) (form : Form) (i : ℕ) (e : TraceEvent) (typed : IsTyped w e)
    (runs : e.instruction ≡ some i)
    (trapped : e.trap ≡ starts_with (codes "-->") e.assembly_mnemonic)
    (in_form : StoreInForm w form.store e.store) (metadata : NoSpace form.metadata) where
  read_accesses-access_parts :
      read_accesses w (some (joined 32 (access_parts w form e))) ≡ ok (found_in e.xwrite e.store)
  unfolding read_accesses
  read_accesses-access_parts =
      rw
        (
          split_ascii_whitespace-joined (access_parts w form e)
              (all_parts-AllWords w some_bits form e.xwrite e.store typed.xwrite metadata),
          read_accesses,
        )
        (read_access_parts w some_bits form e.xwrite e.store typed.xwrite typed.store in_form)

  read_values-columns : read_values w (columns w form i e) ≡ ok e
  unfolding read_values
  read_values-columns =
      rw
        (
          trim-AllPlain (printed 10 1 64 e.time) (plain_10 e.time),
          trim-AllPlain (printed 10 1 64 e.cycle) (plain_10 e.cycle),
          trim-AllPlain (printed 16 8 32 i) (plain_16 32 i),
          from_str_radix-printed 10 (omega arith) (omega arith) 1 64 e.time (omega arith)
              typed.time,
          from_str_radix-printed 10 (omega arith) (omega arith) 1 64 e.cycle (omega arith)
              typed.cycle,
          parse_hex-printed 8 w e.pc some_bits typed.pc,
          parse_hex-printed 8 32 i (omega arith) (subst (Fits 32) runs typed.instruction),
          read_accesses-access_parts,
          make_store-found e.store typed.store,
          read_values,
        )
        (λ k. ok (record e {
          trap = sym trapped k;
          instruction = sym runs k;
          xwrite = map-fresh w e.xwrite typed.xwrite k;
        }))

  -- A line of a trace, printed for an event that is a trap exactly if its mnemonic says so, is read
  -- as that very event: whether a store is written with its digits after any number of `?` or, if it
  -- is twice as wide as a register, as a capability with its tag, and whether metadata without white
  -- space follows the value of a register. The mnemonic and the arguments have no tab.
  pub cheriot_read_line-print_line :
      NoSep (λ c. c == 9) e.assembly_mnemonic
      → NoSep (λ c. c == 9) e.assembly_args
      → read_line w (print_line w form i e) ≡ ok e
  unfolding read_line split
  cheriot_read_line-print_line mnemonic args =
      let plains : AllNoSep (λ c. c == 9) (later_columns w form i e) = (
        AllPlain-no_tab (printed 10 1 64 e.cycle) (plain_10 e.cycle),
        (
          AllPlain-no_tab (printed 16 8 w e.pc) (plain_16 w e.pc),
          (
            AllPlain-no_tab (printed 16 8 32 i) (plain_16 32 i),
            (
              mnemonic,
              (
                args,
                (
                  joined-no_tab (access_parts w form e)
                      (all_parts-AllWords w some_bits form e.xwrite e.store typed.xwrite metadata),
                  tt,
                ),
              ),
            ),
          ),
        ),
      ) in
      rw
        (
          split_by-joined (λ c. c == 9) 9 (printed 10 1 64 e.time) (later_columns w form i e) refl
              (AllPlain-no_tab (printed 10 1 64 e.time) (plain_10 e.time)) plains,
          read_line,
          split,
        )
        read_values-columns
