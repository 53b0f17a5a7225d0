-- ===== src/Riscv/Reg/RoundTrip.antt =====
-- The core registers go to a debugger and come back.
use riscv_trace_debugger.Prelude.{
  ℕ, zero, suc, ◌*◌, ◌%◌, ◌^◌, ◌≤◌, ◌<◌, ◌≡◌, refl, ap, sym, ◌∙◌, some, List, [], ◌∷◌, ◌++◌, ◌==◌,
  drop, length, leb, true, false, ok, replicate, ◌>>=◌, arith, length-append, take-append,
  drop-append, append_assoc, append-nil,
}
use native.Mathlib.Nat.{suc-mul, mul-mod_left}
use riscv_trace_debugger.LeBytes.{LeBytes, IsLeBytes, encode, length-encode, decode-encode}
use riscv_trace_debugger.Riscv.Reg.{
  RiscvCoreRegs, le_bytes, le_bytes_of, gdb_serialize, chunks_exact, read_regs, gdb_deserialize,
}

abbrev pub AllBelow : ℕ → List ℕ → Type 0
AllBelow n [] = Unit
AllBelow n (x ∷ xs) = (x < n) × AllBelow n xs

module _ {size : ℕ} {u : LeBytes} (law : IsLeBytes size u) (some_bytes : 0 < size)
    (few_bytes : size ≤ 16) where
  abbrev encoded : List ℕ → List (List ℕ)
  encoded [] = []
  encoded (v ∷ vs) = encode size v ∷ encoded vs

  abbrev flat : List ℕ → List ℕ
  flat [] = []
  flat (v ∷ vs) = encode size v ++ flat vs

  le_bytes-encode : (v : ℕ) → v < 256 ^ size → le_bytes size u v ≡ some (encode size v)
  unfolding le_bytes
  le_bytes-encode v h =
      rw (law.to_le_bytes_fits v (replicate 16 0) h few_bytes, ◌>>=◌)
        (ap some (
          take-append (encode size v) (drop size (replicate 16 0)) size
            (sym (length-encode size v))))

  le_bytes_of-flat :
      (vs : List ℕ) → AllBelow (256 ^ size) vs → le_bytes_of size u vs ≡ some (flat vs)
  unfolding le_bytes_of
  le_bytes_of-flat [] h = refl
  le_bytes_of-flat (v ∷ vs) (h, t) = rw (le_bytes-encode v h, le_bytes_of-flat vs t, ◌>>=◌) refl

  length-flat : (vs : List ℕ) → length (flat vs) ≡ length vs * size
  length-flat [] = omega arith
  length-flat (v ∷ vs) = omega (
    arith,
    length-append (encode size v) (flat vs),
    length-encode size v,
    length-flat vs,
    suc-mul (length vs) size,
  )

  flat-append : (vs : List ℕ) (v : ℕ) → flat (vs ++ v ∷ []) ≡ flat vs ++ encode size v
  flat-append [] v = append-nil (encode size v)
  flat-append (w ∷ vs) v =
      ap (λ t. encode size w ++ t) (flat-append vs v)
      ∙ sym (append_assoc (encode size w) (flat vs) (encode size v))

  encoded-append : (vs : List ℕ) (v : ℕ) → encoded (vs ++ v ∷ []) ≡ encoded vs ++ encode size v ∷ []
  encoded-append [] v = refl
  encoded-append (w ∷ vs) v = ap (◌∷◌ (encode size w)) (encoded-append vs v)

  chunks_exact-flat :
      (fuel : ℕ) (vs : List ℕ) → length vs ≤ fuel → chunks_exact size u fuel (flat vs) ≡ encoded vs
  unfolding chunks_exact
  chunks_exact-flat zero [] h = refl
  chunks_exact-flat zero (v ∷ vs) h = absurd (omega arith)
  chunks_exact-flat (suc fuel) [] h = rw nothing refl
    where
      nothing : leb size 0 ≡ false
      nothing = ground arith
  chunks_exact-flat (suc fuel) (v ∷ vs) h =
      rw
        (
          enough,
          take-append (encode size v) (flat vs) size (sym (length-encode size v)),
          drop-append (encode size v) (flat vs) size (sym (length-encode size v)),
        )
        (ap (◌∷◌ (encode size v)) (chunks_exact-flat fuel vs (omega arith)))
    where
      enough : leb size (length (encode size v ++ flat vs)) ≡ true
      enough = ground (arith, length-append (encode size v) (flat vs), length-encode size v)

  read_regs-encoded :
      (old vs : List ℕ) (rest : List (List ℕ))
      → length old ≡ length vs
      → AllBelow (256 ^ size) vs
      → read_regs size u old (encoded vs ++ rest) ≡ some (vs, rest, ok tt)
  unfolding read_regs
  read_regs-encoded [] [] rest l h = refl
  read_regs-encoded [] (v ∷ vs) rest l h = absurd (omega arith)
  read_regs-encoded (o ∷ old) [] rest l h = absurd (omega arith)
  read_regs-encoded (o ∷ old) (v ∷ vs) rest l (h, t) =
      rw
        (
          law.from_le_bytes_exact (encode size v) (length-encode size v),
          decode-encode size v h,
          read_regs-encoded old vs rest (omega arith) t,
          ◌>>=◌,
        )
        refl

  length-le-flat : (vs : List ℕ) → length vs ≤ length (flat vs)
  length-le-flat [] = omega arith
  length-le-flat (v ∷ vs) =
      omega
        (arith, length-append (encode size v) (flat vs), length-encode size v, length-le-flat vs)

  AllBelow-append :
      (n : ℕ) (vs : List ℕ) (v : ℕ) → AllBelow n vs → v < n → AllBelow n (vs ++ v ∷ [])
  AllBelow-append n [] v h k = (k, tt)
  AllBelow-append n (w ∷ vs) v (h, t) k = (h, AllBelow-append n vs v t k)

  module _ (regs : RiscvCoreRegs) (xs : AllBelow (256 ^ size) regs.x)
      (pc : regs.pc < 256 ^ size) where
    abbrev values : List ℕ
    values = regs.x ++ regs.pc ∷ []

    gdb_serialize_lem : gdb_serialize size u regs ≡ some (flat values)
    unfolding gdb_serialize
    gdb_serialize_lem =
        rw (le_bytes_of-flat regs.x xs, le_bytes-encode regs.pc pc, ◌>>=◌)
          (ap some (sym (flat-append regs.x regs.pc)))

    whole : (length (flat values) % size == 0) ≡ true
    whole =
        ap (λ (n : ℕ). n % size == 0) (length-flat values)
        ∙ ap (λ (n : ℕ). n == 0) (mul-mod_left (length values) size)

    -- The core registers come back from a debugger as they were sent: where the conversion of words
    -- is that of gdbstub, for words of at most sixteen bytes and registers that fit them, sending
    -- does not panic, and whatever registers the receiver had, as many as were sent, it has those
    -- that were sent, with no error.
    pub gdb_deserialize-gdb_serialize :
        (old : RiscvCoreRegs)
        → length old.x ≡ length regs.x
        → (bytes : List ℕ) × (gdb_serialize size u regs ≡ some bytes)
          × (length bytes ≡ length values * size)
          × (gdb_deserialize size u old bytes ≡ some (regs, ok tt))
    unfolding gdb_deserialize
    gdb_deserialize-gdb_serialize old l = (
      flat values,
      gdb_serialize_lem,
      length-flat values,
      rw
          (
            whole,
            chunks_exact-flat (length (flat values)) values (length-le-flat values),
            encoded-append regs.x regs.pc,
            read_regs-encoded old.x regs.x (encode size regs.pc ∷ []) l xs,
            ◌>>=◌,
          )
          (rw
            (
              law.from_le_bytes_exact (encode size regs.pc) (length-encode size regs.pc),
              decode-encode size regs.pc pc,
            )
            refl),
    )
