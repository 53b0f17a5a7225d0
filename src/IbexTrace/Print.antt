-- ===== src/IbexTrace/Print.antt =====
-- A line of an Ibex trace for an event, and the event read back from it.
use mathlib.Core.List.{cons-ne-nil}
use riscv_trace_debugger.Prelude.{
  ℕ, zero, suc, ◌+◌, ◌^◌, ◌≤◌, ◌<◌, ◌≡◌, ◌≢◌, refl, sym, ap, ◌∙◌, Option, none, some, List, [], ◌∷◌,
  ◌++◌, ◌==◌, arith, append_assoc, Bool-cases, inl, inr, ok, ==_iff,
}
use riscv_trace_debugger.Trace.{Text, XRegWrite, MemWrite, TraceEvent}
use riscv_trace_debugger.Trace.Typed.{FreshWrite}
use riscv_trace_debugger.Cpu.Replay.{payload}
use riscv_trace_debugger.Str.{is_ascii_whitespace, codes, strip_prefix, decimal}
use riscv_trace_debugger.Str.Display.Read.{
  printed, AllPlain, AllPlain-append, printed-AllPlain, from_str_radix-printed,
}
use riscv_trace_debugger.Str.Split.{NoSep, AllPlain-NoSep, AllWords}
use riscv_trace_debugger.Str.Registers.{
  strip_prefix-append, strip_prefix-decimal_ne, decimal-AllPlain,
}
use riscv_trace_debugger.IbexTrace.{Accesses, read_x, read_xs, read_part, read_store, read_pa}

abbrev pub hex : ℕ → ℕ → Text
hex bits n = printed 16 8 bits n

abbrev pub x_part : ℕ → XRegWrite → Text
x_part w x = codes "x" ++ (decimal x.index ++ (codes "=0x" ++ hex w x.value))

abbrev pub x_parts : ℕ → Option XRegWrite → List Text
x_parts w none = []
x_parts w (some x) = x_part w x ∷ []

abbrev pub store_parts : Option MemWrite → List Text
store_parts none = []
store_parts (some st) =
    (codes "store:0x" ++ hex 64 (payload st.value)) ∷ (codes "PA:0x" ++ hex 64 st.phys_addr) ∷ []

-- What the accesses of a line have for a write and a store.
abbrev pub access_parts : ℕ → TraceEvent → List Text
access_parts w e = x_parts w e.xwrite ++ store_parts e.store

module _ (w : ℕ) (some_bits : 0 < w) where
  module _ (x : XRegWrite) (low : 1 ≤ x.index) (high : x.index < 32) (fits : x.value < 2 ^ w)
      (acc : Accesses) where
    read_x-ne : (j : ℕ) → x.index ≢ j → j < 32 → read_x w j (x_part w x) acc ≡ ok acc
    unfolding read_x strip_prefix
    read_x-ne j ne lt =
        rw
          (
            strip_prefix-decimal_ne x.index j (codes "0x") (codes "0x" ++ hex w x.value)
                (omega (arith, high)) (omega (arith, lt)) ne,
            read_x,
          )
          refl

    abbrev pub with_x : Accesses
    with_x = record acc {
      xwrite = some (record { index = x.index; value = x.value; prev_value = none });
    }

    read_x_self : acc.xwrite ≡ none → read_x w x.index (x_part w x) acc ≡ ok with_x
    unfolding read_x
    read_x_self free =
        let found : strip_prefix (codes "x" ++ decimal x.index ++ codes "=0x") (x_part w x)
            ≡ some (hex w x.value) =
          ap (strip_prefix (codes "x" ++ decimal x.index ++ codes "=0x"))
            (ap (◌∷◌ b'x') (sym (append_assoc (decimal x.index) (codes "=0x") (hex w x.value))))
          ∙ strip_prefix-append (codes "x" ++ decimal x.index ++ codes "=0x") (hex w x.value) in
        rw
          (
            found,
            free,
            from_str_radix-printed 16 (omega arith) (omega arith) 8 w x.value some_bits fits,
            read_x,
          )
          refl

    read_xs-past :
        (rounds index : ℕ)
        → x.index < index
        → index + rounds ≤ 32
        → read_xs w rounds index (x_part w x) acc ≡ ok acc
    unfolding read_xs
    read_xs-past zero index past le = refl
    read_xs-past (suc rounds) index past le =
        rw (read_x-ne index (omega (arith, past)) (omega (arith, le)), read_xs)
          (read_xs-past rounds (index + 1) (omega (arith, past)) (omega (arith, le)))

  module _ (x : XRegWrite) (low : 1 ≤ x.index) (high : x.index < 32) (fits : x.value < 2 ^ w)
      (acc : Accesses) (free : acc.xwrite ≡ none) where
    read_xs-found :
        (rounds index : ℕ)
        → index ≤ x.index
        → x.index < index + rounds
        → index + rounds ≤ 32
        → read_xs w rounds index (x_part w x) acc ≡ ok (with_x x low high fits acc)
    unfolding read_xs
    read_xs-found zero index from to le = absurd (omega (arith, from, to))
    read_xs-found (suc rounds) index from to le = elim (Bool-cases (x.index == index)) [
      | inl e ↦
          let here : x.index ≡ index = (==_iff x.index index).0 e in
          rw (sym here, read_x_self x low high fits acc free, read_xs)
            (read_xs-past x low high fits (with_x x low high fits acc) rounds (x.index + 1)
              (omega arith) (omega (arith, le, here)))
      | inr e ↦
          let ne : x.index ≢ index = ground arith in
          rw (read_x-ne x low high fits acc index ne (omega (arith, le)), read_xs)
            (read_xs-found rounds (index + 1) (ground arith) (omega (arith, to))
              (omega (arith, le)))
    ]

    pub read_part-x_part : read_part w (x_part w x) acc ≡ ok (with_x x low high fits acc)
    unfolding read_part strip_prefix
    read_part-x_part = read_xs-found 31 1 low (omega (arith, high)) (omega arith)

  pub read_part-store :
      (n : ℕ) (acc : Accesses)
      → n < 2 ^ 64
      → acc.store_val ≡ none
      → read_part w (codes "store:0x" ++ hex 64 n) acc ≡ ok (record acc { store_val = some n })
  unfolding read_part read_store
  read_part-store n acc fits free =
      rw
        (
          strip_prefix-append (codes "store:0x") (hex 64 n),
          free,
          read_part,
          read_store,
          from_str_radix-printed 16 (omega arith) (omega arith) 8 64 n (omega arith) fits,
        )
        refl

  pub read_part-pa :
      (n : ℕ) (acc : Accesses)
      → n < 2 ^ 64
      → acc.phys_addr ≡ none
      → read_part w (codes "PA:0x" ++ hex 64 n) acc ≡ ok (record acc { phys_addr = some n })
  unfolding read_part read_pa strip_prefix
  read_part-pa n acc fits free =
      rw
        (
          free,
          read_part,
          read_pa,
          from_str_radix-printed 16 (omega arith) (omega arith) 8 64 n (omega arith) fits,
        )
        refl

hex-AllPlain : (bits n : ℕ) → AllPlain (hex bits n)
hex-AllPlain bits n = printed-AllPlain 16 (omega arith) (omega arith) 8 bits n

store-NoSep : (n : ℕ) → NoSep is_ascii_whitespace (codes "store:0x" ++ hex 64 n)
store-NoSep n =
    AllPlain-NoSep (codes "store:0x" ++ hex 64 n)
      (AllPlain-append (codes "store:0x") (hex 64 n) (ground arith) (hex-AllPlain 64 n))

pa-NoSep : (n : ℕ) → NoSep is_ascii_whitespace (codes "PA:0x" ++ hex 64 n)
pa-NoSep n =
    AllPlain-NoSep (codes "PA:0x" ++ hex 64 n)
      (AllPlain-append (codes "PA:0x") (hex 64 n) (ground arith) (hex-AllPlain 64 n))

x_part-NoSep : (w : ℕ) (x : XRegWrite) → x.index < 32 → NoSep is_ascii_whitespace (x_part w x)
x_part-NoSep w x high = AllPlain-NoSep (x_part w x) (
    AllPlain-append (codes "x") (decimal x.index ++ (codes "=0x" ++ hex w x.value)) (ground arith) (
      AllPlain-append (decimal x.index) (codes "=0x" ++ hex w x.value)
        (decimal-AllPlain x.index (omega (arith, high)))
        (AllPlain-append (codes "=0x") (hex w x.value) (ground arith) (hex-AllPlain w x.value))))

store_parts-AllWords : (store : Option MemWrite) → AllWords (store_parts store)
store_parts-AllWords none = tt
store_parts-AllWords (some st) =
    (cons-ne-nil _ _, store-NoSep (payload st.value), (cons-ne-nil _ _, pa-NoSep st.phys_addr, tt))

pub access_parts-AllWords :
    (w : ℕ) (e : TraceEvent) → FreshWrite w e.xwrite → AllWords (access_parts w e)
access_parts-AllWords w e h = words e.xwrite h
  where
    words : (x : Option XRegWrite) → FreshWrite w x → AllWords (x_parts w x ++ store_parts e.store)
    words none h = store_parts-AllWords e.store
    words (some x) h = (cons-ne-nil _ _, x_part-NoSep w x h.1, store_parts-AllWords e.store)
