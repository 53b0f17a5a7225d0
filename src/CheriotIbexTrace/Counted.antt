-- ===== src/CheriotIbexTrace/Counted.antt =====
-- How many stores, addresses and writes of registers a line may have.
use riscv_trace_debugger.Prelude.{
  ℕ, zero, suc, ◌+◌, ◌≡◌, refl, Option, none, some, List, [], ◌∷◌, arith, Option-cases, inl, inr,
  not, true,
}
use riscv_trace_debugger.Fallible.{
  ◌>>=◌, Ensures-imp, Ensures, Ensures-bind, Ensures-guard_eq, Ensures-any, Ensures-eq_ok,
}
use riscv_trace_debugger.Prelude.{Result, ok}
use riscv_trace_debugger.Trace.{Text}
use riscv_trace_debugger.Str.{codes, is_some, strip_prefix, split_ascii_whitespace}
use riscv_trace_debugger.Str.Prefixes.{
  number, has, count, register_prefix, registers_from, registers, has-other, registers_from-other,
}
use riscv_trace_debugger.CheriotIbexTrace.{
  Error, parse_hex, strip_hex_prefix, read_store_val, read_x_value, multiple_stores, multiple_pas,
  multiple_x_writes, Accesses, no_accesses, read_store, read_pa, read_x, read_xs, read_part,
  read_parts, read_accesses,
}

-- What has been found goes up by so many stores, addresses and writes.
abbrev Adds : ℕ → ℕ → ℕ → Accesses → Accesses → Type 0
Adds stores pas writes acc acc' =
    (number acc'.store_val ≡ stores + number acc.store_val)
    × (number acc'.phys_addr ≡ pas + number acc.phys_addr)
    × (number acc'.xwrite ≡ writes + number acc.xwrite)

number_free {ℓ} : {A : Type ℓ} (o : Option A) → not (is_some o) ≡ true → number o ≡ 0
number_free none e = refl
number_free (some a) e = ground arith

Adds-bind :
    (s p x s' p' x' : ℕ) (acc : Accesses) (r : Result Error Accesses)
    (f : Accesses → Result Error Accesses)
    → Ensures (Adds s p x acc) r
    → ((acc' : Accesses) → Ensures (Adds s' p' x' acc') (f acc'))
    → Ensures (Adds (s + s') (p + p') (x + x') acc) (r >>= f)
Adds-bind s p x s' p' x' acc r f h g =
    Ensures-bind (Adds s p x acc) (Adds (s + s') (p + p') (x + x') acc) r f h (λ acc' first.
      Ensures-imp (Adds s' p' x' acc') (Adds (s + s') (p + p') (x + x') acc) (f acc')
        (λ acc'' more. (
          omega (arith, first.0, more.0),
          omega (arith, first.1, more.1),
          omega (arith, first.2, more.2),
        ))
        (g acc'))

read_store-Adds :
    (w : ℕ) (val : Text) (acc : Accesses) → Ensures (Adds 1 0 0 acc) (read_store w val acc)
unfolding read_store
read_store-Adds w val acc =
    Ensures-guard_eq (Adds 1 0 0 acc) (not (is_some acc.store_val)) multiple_stores _ (λ free.
      let none_yet = number_free acc.store_val free in
      Ensures-bind (λ v. Unit) (Adds 1 0 0 acc) (read_store_val w val) _
        (Ensures-any (read_store_val w val))
        (λ v u. (omega (arith, none_yet), omega arith, omega arith)))

read_pa-Adds : (val : Text) (acc : Accesses) → Ensures (Adds 0 1 0 acc) (read_pa val acc)
unfolding read_pa
read_pa-Adds val acc =
    Ensures-guard_eq (Adds 0 1 0 acc) (not (is_some acc.phys_addr)) multiple_pas _ (λ free.
      let none_yet = number_free acc.phys_addr free in
      Ensures-bind (λ v. Unit) (Adds 0 1 0 acc) (strip_hex_prefix val) _
        (Ensures-any (strip_hex_prefix val))
        (λ digits u.
          Ensures-bind (λ v. Unit) (Adds 0 1 0 acc) (parse_hex 64 digits) _
            (Ensures-any (parse_hex 64 digits))
            (λ v u. (omega arith, omega (arith, none_yet), omega arith))))

module _ (w : ℕ) where
  read_x-Adds :
      (index : ℕ) (part : Text) (acc : Accesses)
      → Ensures
          (Adds 0 0 (has (register_prefix (codes "=") index) part) acc)
          (read_x w index part acc)
  unfolding read_x
  read_x-Adds index part acc =
      elim (Option-cases (strip_prefix (register_prefix (codes "=") index) part)) [
        | inl e ↦ rw (e, read_x) (omega arith, omega arith, omega arith)
        | inr (val, e) ↦
            rw (e, read_x)
              (Ensures-guard_eq (Adds 0 0 1 acc) (not (is_some acc.xwrite)) multiple_x_writes _
                (λ free.
                  let none_yet = number_free acc.xwrite free in
                  Ensures-bind (λ v. Unit) (Adds 0 0 1 acc) (read_x_value w val) _
                    (Ensures-any (read_x_value w val))
                    (λ v u. (omega arith, omega arith, omega (arith, none_yet)))))
      ]

  read_xs-Adds :
      (rounds index : ℕ) (part : Text) (acc : Accesses)
      → Ensures
          (Adds 0 0 (registers_from (codes "=") rounds index part) acc)
          (read_xs w rounds index part acc)
  unfolding read_xs registers_from
  read_xs-Adds zero index part acc = (omega arith, omega arith, omega arith)
  read_xs-Adds (suc rounds) index part acc =
      Adds-bind 0 0 (has (register_prefix (codes "=") index) part) 0 0
        (registers_from (codes "=") rounds (index + 1) part) acc (read_x w index part acc)
        (read_xs w rounds (index + 1) part) (read_x-Adds index part acc)
        (read_xs-Adds rounds (index + 1) part)

  read_part-Adds :
      (part : Text) (acc : Accesses)
      → Ensures
          (Adds
            (has (codes "store:") part)
            (has (codes "PA:") part)
            (registers (codes "=") part)
            acc)
          (read_part w part acc)
  unfolding read_part
  read_part-Adds part acc = elim (Option-cases (strip_prefix (codes "store:") part)) [
    | inl no_store ↦ elim (Option-cases (strip_prefix (codes "PA:") part)) [
      | inl no_pa ↦ rw (no_store, no_pa, read_part) (read_xs-Adds 31 1 part acc)
      | inr (val, pa) ↦
          rw
            (
              no_store,
              pa,
              read_part,
              registers_from-other (codes "=") 80 (codes "A:") 31 1 part (omega arith) pa,
            )
            (read_pa-Adds val acc)
    ]
    | inr (val, store) ↦
        rw
          (
            store,
            read_part,
            has-other 115 (codes "tore:") 80 (codes "A:") part (omega arith) store,
            registers_from-other (codes "=") 115 (codes "tore:") 31 1 part (omega arith) store,
          )
          (read_store-Adds w val acc)
  ]

  read_parts-Adds :
      (parts : List Text) (acc : Accesses)
      → Ensures
          (Adds
            (count (has (codes "store:")) parts)
            (count (has (codes "PA:")) parts)
            (count (registers (codes "=")) parts)
            acc)
          (read_parts w parts acc)
  unfolding read_parts count
  read_parts-Adds [] acc = (omega arith, omega arith, omega arith)
  read_parts-Adds (part ∷ parts) acc =
      Adds-bind (has (codes "store:") part) (has (codes "PA:") part) (registers (codes "=") part) _
        _ _ acc (read_part w part acc) (read_parts w parts) (read_part-Adds part acc)
        (read_parts-Adds parts)

  -- A line that is read has at most one store, one address and one write of x1 to x31 among its
  -- accesses, and each of them is found exactly if it is there once: what is found counts as many as
  -- the parts that begin with its prefix.
  pub cheriot_ibex_read_accesses-count :
      (accesses : Text) (found : Accesses)
      → read_accesses w (some accesses) ≡ ok found
      → let parts = split_ascii_whitespace accesses in
        (number found.store_val ≡ count (has (codes "store:")) parts)
        × (number found.phys_addr ≡ count (has (codes "PA:")) parts)
        × (number found.xwrite ≡ count (registers (codes "=")) parts)
  unfolding read_accesses
  cheriot_ibex_read_accesses-count accesses found e =
      let parts = split_ascii_whitespace accesses in
      let all =
        Ensures-eq_ok
          (Adds (count (has (codes "store:")) parts) (count (has (codes "PA:")) parts)
            (count (registers (codes "=")) parts) no_accesses)
          (read_parts w parts no_accesses) found (read_parts-Adds parts no_accesses) e in
      (omega (arith, all.0), omega (arith, all.1), omega (arith, all.2))
