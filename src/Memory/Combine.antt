-- ===== src/Memory/Combine.antt =====
-- A wide access is two accesses of half the width, the second one at the wrapped address.
use Prim.Native.Nat.add
use native.Mathlib.Nat.{
  zero-add, add-zero, mul_assoc, pow-succ', div-one, div-div-eq-div-mul, mod-add-div,
}
use riscv_trace_debugger.Prelude.{
  ℕ, zero, suc, ◌+◌, ◌*◌, ◌/◌, ◌%◌, ◌^◌, ◌≡◌, refl, ap, sym, ◌∙◌, arith,
}
use riscv_trace_debugger.Memory.LittleEndian.{Bytes, u64_mod, le_value, update, put}

add_shift : (a n : ℕ) → a + 1 + n ≡ a + suc n
add_shift a n = omega arith

pow_suc_mul : (b n k : ℕ) → b ^ suc n * k ≡ b * (b ^ n * k)
pow_suc_mul b n k = rw (pow-succ', mul_assoc)

-- Addresses count modulo 2 ^ 64.
pub le_value_mod :
    (n : ℕ) (f : Bytes) (a b : ℕ) → a % u64_mod ≡ b % u64_mod → le_value n f a ≡ le_value n f b
unfolding le_value
le_value_mod zero f a b e = omega arith
le_value_mod (suc n) f a b e = omega (arith, ap f e, le_value_mod n f (a + 1) (b + 1) (omega arith))

pub put_mod :
    (n v : ℕ) (f : Bytes) (a b : ℕ) → a % u64_mod ≡ b % u64_mod → put n v f a ≡ put n v f b
unfolding put
put_mod zero v f a b e = ap (λ (x : ℕ). f) e
put_mod (suc n) v f a b e = rw e (put_mod n (v / 256) _ (a + 1) (b + 1) (omega arith))

pub le_value-add :
    (n k : ℕ) (f : Bytes) (a : ℕ)
    → le_value (n + k) f a ≡ le_value n f a + 256 ^ n * le_value k f (a + n)
unfolding le_value
le_value-add zero k f a = rw (zero-add k, add-zero) (omega arith)
le_value-add (suc n) k f a =
    rw (add.suc, ← add_shift a n)
      (omega (arith, le_value-add n k f (a + 1), pow_suc_mul 256 n (le_value k f (a + 1 + n))))

pub put-add :
    (n k v : ℕ) (f : Bytes) (a : ℕ) → put (n + k) v f a ≡ put k (v / 256 ^ n) (put n v f a) (a + n)
unfolding put
put-add zero k v f a = rw (zero-add, add-zero, div-one)
put-add (suc n) k v f a =
    rw (add.suc, ← add_shift a n, pow-succ' 256 n, ← div-div-eq-div-mul)
      (put-add n k (v / 256) (update f (a % u64_mod) (v % 256)) (a + 1))

put_high : (n low high : ℕ) (f : Bytes) (a : ℕ) → put n (low + 256 ^ n * high) f a ≡ put n low f a
unfolding put
put_high zero low high f a = refl
put_high (suc n) low high f a =
    rw (first_byte, other_bytes)
      (put_high n (low / 256) high (update f (a % u64_mod) (low % 256)) (a + 1))
  where
    first_byte : (low + 256 ^ suc n * high) % 256 ≡ low % 256
    first_byte = omega (arith, pow_suc_mul 256 n high)

    other_bytes : (low + 256 ^ suc n * high) / 256 ≡ low / 256 + 256 ^ n * high
    other_bytes = omega (arith, pow_suc_mul 256 n high)

-- Only the low `n` bytes of the value count.
pub put_low : (n v : ℕ) (f : Bytes) (a : ℕ) → put n (v % 256 ^ n) f a ≡ put n v f a
put_low n v f a =
    sym (put_high n (v % 256 ^ n) (v / 256 ^ n) f a)
    ∙ ap (λ t. put n t f a) (mod-add-div v (256 ^ n))
