-- ===== src/CheriotIbexTrace/Parts.antt =====
-- The parts of a line of a Cheriot-Ibex trace, each read as what it was printed for.
use mathlib.Core.Option
use riscv_trace_debugger.Prelude.{
  ℕ, zero, suc, ◌+◌, ◌^◌, ◌≤◌, ◌<◌, ◌≡◌, ◌≢◌, refl, sym, ap, ◌∙◌, Option, none, some, List, [], ◌∷◌,
  ◌++◌, ◌==◌, arith, append_assoc, Bool-cases, inl, inr, ok, ==_iff,
}
use riscv_trace_debugger.Trace.{Text, Data, XRegWrite, MemWrite, TraceEvent}
use riscv_trace_debugger.Trace.Typed.{fresh}
use riscv_trace_debugger.Memory.{size}
use riscv_trace_debugger.Cpu.Replay.{width, payload}
use riscv_trace_debugger.Str.{codes, decimal, strip_prefix}
use riscv_trace_debugger.Str.Registers.{strip_prefix-append, strip_prefix-decimal_ne}
use riscv_trace_debugger.CheriotIbexTrace.{
  strip_hex_prefix, Accesses, read_store, read_pa, read_x, read_xs, read_part,
}
use riscv_trace_debugger.CheriotIbexTrace.Print.{StoreForm, InForm, store_text, x_text, hex_word}
use riscv_trace_debugger.CheriotIbexTrace.Values.{
  parse_hex-printed, read_x_value-x_text, read_store_val-store_text,
}

-- How the accesses of an event are written.
pub record Form : Type 0 where
  pub store : StoreForm
  pub metadata : Option Text

abbrev pub StoreInForm : ℕ → StoreForm → Option MemWrite → Type 0
StoreInForm w form none = Unit
StoreInForm w form (some st) = InForm w form st.value

abbrev pub x_part : ℕ → Form → XRegWrite → Text
x_part w form x = codes "x" ++ (decimal x.index ++ (codes "=" ++ x_text w x.value form.metadata))

abbrev pub x_parts : ℕ → Form → Option XRegWrite → List Text
x_parts w form none = []
x_parts w form (some x) = x_part w form x ∷ []

abbrev pub store_parts : ℕ → Form → Option MemWrite → List Text
store_parts w form none = []
store_parts w form (some st) =
    (codes "store:" ++ store_text w form.store st.value)
    ∷ (codes "PA:" ++ hex_word 64 st.phys_addr)
    ∷ []

-- What the accesses of a line have for a write and a store.
abbrev pub access_parts : ℕ → Form → TraceEvent → List Text
access_parts w form e = x_parts w form e.xwrite ++ store_parts w form e.store

-- What the loop over the accesses finds.
abbrev pub found_in : Option XRegWrite → Option MemWrite → Accesses
found_in xwrite store = record {
  phys_addr = Option.map (λ st. st.phys_addr) store;
  store_val = Option.map (λ st. st.value) store;
  xwrite = Option.map fresh xwrite;
}

module _ (w : ℕ) (some_bits : 0 < w) (form : Form) where
  module _ (x : XRegWrite) (low : 1 ≤ x.index) (high : x.index < 32) (fits : x.value < 2 ^ w) where
    read_x-ne :
        (j : ℕ) (acc : Accesses) → x.index ≢ j → j < 32 → read_x w j (x_part w form x) acc ≡ ok acc
    unfolding read_x strip_prefix
    read_x-ne j acc ne lt =
        rw
          (
            strip_prefix-decimal_ne x.index j [] (x_text w x.value form.metadata)
                (omega (arith, high)) (omega (arith, lt)) ne,
            read_x,
          )
          refl

    read_x_self :
        (acc : Accesses)
        → acc.xwrite ≡ none
        → read_x w x.index (x_part w form x) acc ≡ ok (record acc { xwrite = some (fresh x) })
    unfolding read_x
    read_x_self acc free =
        let text = x_text w x.value form.metadata in
        let found : strip_prefix (codes "x" ++ decimal x.index ++ codes "=") (x_part w form x)
            ≡ some text =
          ap (strip_prefix (codes "x" ++ decimal x.index ++ codes "="))
            (ap (◌∷◌ b'x') (sym (append_assoc (decimal x.index) (codes "=") text)))
          ∙ strip_prefix-append (codes "x" ++ decimal x.index ++ codes "=") text in
        rw (found, free, read_x_value-x_text w x.value form.metadata some_bits fits, read_x) refl

    read_xs-past :
        (rounds index : ℕ) (acc : Accesses)
        → x.index < index
        → index + rounds ≤ 32
        → read_xs w rounds index (x_part w form x) acc ≡ ok acc
    unfolding read_xs
    read_xs-past zero index acc past le = refl
    read_xs-past (suc rounds) index acc past le =
        rw (read_x-ne index acc (omega (arith, past)) (omega (arith, le)), read_xs)
          (read_xs-past rounds (index + 1) acc (omega (arith, past)) (omega (arith, le)))

    read_xs-found :
        (rounds index : ℕ) (acc : Accesses)
        → acc.xwrite ≡ none
        → index ≤ x.index
        → x.index < index + rounds
        → index + rounds ≤ 32
        → read_xs w rounds index (x_part w form x) acc ≡ ok (record acc { xwrite = some (fresh x) })
    unfolding read_xs
    read_xs-found zero index acc free from to le = absurd (omega (arith, from, to))
    read_xs-found (suc rounds) index acc free from to le = elim (Bool-cases (x.index == index)) [
      | inl e ↦
          let here : x.index ≡ index = (==_iff x.index index).0 e in
          rw (sym here, read_x_self acc free, read_xs)
            (read_xs-past rounds (x.index + 1) (record acc { xwrite = some (fresh x) })
              (omega arith) (omega (arith, le, here)))
      | inr e ↦
          let ne : x.index ≢ index = ground arith in
          rw (read_x-ne index acc ne (omega (arith, le)), read_xs)
            (read_xs-found rounds (index + 1) acc free (ground arith) (omega (arith, to))
              (omega (arith, le)))
    ]

    pub read_part-x_part :
        (acc : Accesses)
        → acc.xwrite ≡ none
        → read_part w (x_part w form x) acc ≡ ok (record acc { xwrite = some (fresh x) })
    unfolding read_part strip_prefix
    read_part-x_part acc free = read_xs-found 31 1 acc free low (omega (arith, high)) (omega arith)

  pub read_part-store :
      (d : Data) (acc : Accesses)
      → InForm w form.store d
      → payload d < 256 ^ size (width d)
      → acc.store_val ≡ none
      → read_part w (codes "store:" ++ store_text w form.store d) acc
        ≡ ok (record acc { store_val = some d })
  unfolding read_part read_store
  read_part-store d acc in_form fits free =
      rw
        (
          strip_prefix-append (codes "store:") (store_text w form.store d),
          free,
          read_part,
          read_store,
          read_store_val-store_text w form.store d in_form fits,
        )
        refl

  pub read_part-pa :
      (n : ℕ) (acc : Accesses)
      → n < 2 ^ 64
      → acc.phys_addr ≡ none
      → read_part w (codes "PA:" ++ hex_word 64 n) acc ≡ ok (record acc { phys_addr = some n })
  unfolding read_part read_pa strip_prefix strip_hex_prefix
  read_part-pa n acc fits free =
      rw (free, read_part, read_pa, strip_hex_prefix, parse_hex-printed 8 64 n (omega arith) fits)
        refl
