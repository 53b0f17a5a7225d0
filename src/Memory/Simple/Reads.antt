-- ===== src/Memory/Simple/Reads.antt =====
-- The reads of `SimpleMemory` give little-endian values.
use riscv_trace_debugger.Prelude.{
  ℕ, ◌+◌, ◌*◌, ◌%◌, ◌^◌, ◌<◌, ◌≡◌, refl, ◌∙◌, ap, arith, bit_or, bit_or_disjoint,
}
use native.Mathlib.Nat.{mul_comm, mod-eq_of_lt}
use riscv_trace_debugger.Memory.LittleEndian.{IsBytes, Bytes, u64_mod, le_value, le_value-lt}
use riscv_trace_debugger.Memory.Combine.{le_value_mod, le_value-add}
use riscv_trace_debugger.Memory.Simple.Defs.{SimpleMemory, r8, r16, r32, r64, r128}

-- Two halves of `k` bits each.
join_halves :
    (k low high total : ℕ)
    → total ≡ 2 ^ k * 2 ^ k
    → low < 2 ^ k
    → high < 2 ^ k
    → bit_or low (high * 2 ^ k % total) ≡ low + 2 ^ k * high
join_halves k low high total e hl hh =
    rw kept (bit_or_disjoint k low high hl ∙ ap (λ t. low + t) (mul_comm high (2 ^ k)))
  where
    kept : high * 2 ^ k % total ≡ high * 2 ^ k
    kept = mod-eq_of_lt (rw e (grind arith))

-- A read of `n + n` bytes, made of two reads of `n` bytes that are right.
wider :
    (n k total : ℕ) (f : Bytes) (r : ℕ → ℕ)
    → 2 ^ k ≡ 256 ^ n
    → total ≡ 2 ^ k * 2 ^ k
    → IsBytes f
    → ((a : ℕ) → a < u64_mod → r a ≡ le_value n f a)
    → (a : ℕ) → a < u64_mod
    → bit_or (r a) (r ((a + n) % 2 ^ 64) * 2 ^ k % total) ≡ le_value (n + n) f a
wider n k total f r e e' bytes half a h =
    rw (half a h, half ((a + n) % 2 ^ 64) (omega arith), wrapped, joined, e, le_value-add n n f a)
  where
    wrapped : le_value n f ((a + n) % 2 ^ 64) ≡ le_value n f (a + n)
    wrapped = le_value_mod n f ((a + n) % 2 ^ 64) (a + n) (omega arith)

    joined :
        bit_or (le_value n f a) (le_value n f (a + n) * 2 ^ k % total)
        ≡ le_value n f a + 2 ^ k * le_value n f (a + n)
    joined =
        join_halves k (le_value n f a) (le_value n f (a + n)) total e'
          (rw e (le_value-lt n f a bytes)) (rw e (le_value-lt n f (a + n) bytes))

-- Each width in terms of the byte reads.
module _ (m : SimpleMemory) where
  pub r8-eq-le_value : (a : ℕ) → a < u64_mod → r8 m a ≡ le_value 1 (r8 m) a
  unfolding le_value
  r8-eq-le_value a h = omega (arith, ap (r8 m) (mod-eq_of_lt h))

module _ (m : SimpleMemory) (bytes : IsBytes (r8 m)) where
  pub r16-eq-le_value : (a : ℕ) → a < u64_mod → r16 m a ≡ le_value 2 (r8 m) a
  unfolding r16
  r16-eq-le_value = wider 1 8 (2 ^ 16) (r8 m) (r8 m) refl refl bytes (r8-eq-le_value m)

  pub r32-eq-le_value : (a : ℕ) → a < u64_mod → r32 m a ≡ le_value 4 (r8 m) a
  unfolding r32
  r32-eq-le_value = wider 2 16 (2 ^ 32) (r8 m) (r16 m) refl refl bytes r16-eq-le_value

  pub r64-eq-le_value : (a : ℕ) → a < u64_mod → r64 m a ≡ le_value 8 (r8 m) a
  unfolding r64
  r64-eq-le_value = wider 4 32 (2 ^ 64) (r8 m) (r32 m) refl refl bytes r32-eq-le_value

  pub r128-eq-le_value : (a : ℕ) → a < u64_mod → r128 m a ≡ le_value 16 (r8 m) a
  unfolding r128
  r128-eq-le_value = wider 8 64 (2 ^ 128) (r8 m) (r64 m) refl refl bytes r64-eq-le_value
