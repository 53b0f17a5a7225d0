-- ===== src/Memory/Simple/Writes.antt =====
-- The writes of `SimpleMemory` put little-endian values.
use riscv_trace_debugger.Prelude.{
  ℕ, ◌+◌, ◌/◌, ◌%◌, ◌^◌, ◌<◌, ◌≡◌, refl, ◌∙◌, sym, ap, ap₂, fun_ext, arith,
}
use native.Mathlib.Nat.{mod-eq_of_lt, mod-lt, one-le-pow}
use riscv_trace_debugger.HashMap.{get-insert}
use riscv_trace_debugger.Memory.LittleEndian.{u64_mod, update, put}
use riscv_trace_debugger.Memory.Combine.{put_mod, put-add, put_low}
use riscv_trace_debugger.Memory.Simple.Defs.{SimpleMemory, r8, w8, w16, w32, w64, w128}

-- What the memory holds after a write of each width.
pub r8-w8 : (m : SimpleMemory) (a v : ℕ) → r8 (w8 m a v) ≡ update (r8 m) a v
unfolding r8 w8 update
r8-w8 m a v = fun_ext λ x. ground (arith, get-insert m.map a v x)

-- A write of `n + n` bytes, made of two writes of `n` bytes that are right.
wider_write :
    (n k : ℕ) (w : SimpleMemory → ℕ → ℕ → SimpleMemory)
    → 2 ^ k ≡ 256 ^ n
    → ((m : SimpleMemory) (a v : ℕ) → a < u64_mod → v < 256 ^ n → r8 (w m a v) ≡ put n v (r8 m) a)
    → (m : SimpleMemory) (a v : ℕ) → a < u64_mod
    → r8 (w (w m a (v % 2 ^ k)) ((a + n) % 2 ^ 64) (v / 2 ^ k % 2 ^ k)) ≡ put (n + n) v (r8 m) a
wider_write n k w e half m a v h = rw e (
    half (w m a (v % 256 ^ n)) ((a + n) % 2 ^ 64) (v / 256 ^ n % 256 ^ n) (omega arith)
      (mod-lt _ (pow_pos n))
    ∙ put_low n (v / 256 ^ n) _ ((a + n) % 2 ^ 64)
    ∙ put_mod n (v / 256 ^ n) _ ((a + n) % 2 ^ 64) (a + n) (omega arith)
    ∙ ap (λ f. put n (v / 256 ^ n) f (a + n))
        (half m a (v % 256 ^ n) h (mod-lt _ (pow_pos n)) ∙ put_low n v (r8 m) a)
    ∙ sym (put-add n n v (r8 m) a))
  where
    pow_pos : (n : ℕ) → 0 < 256 ^ n
    pow_pos n = one-le-pow n 256 (omega arith)

pub w8-eq-put :
    (m : SimpleMemory) (a v : ℕ) → a < u64_mod → v < 256 ^ 1 → r8 (w8 m a v) ≡ put 1 v (r8 m) a
unfolding put
w8-eq-put m a v h fits =
    r8-w8 m a v ∙ ap₂ (update (r8 m)) (sym (mod-eq_of_lt h)) (sym (mod-eq_of_lt fits))

pub w16-eq-put :
    (m : SimpleMemory) (a v : ℕ) → a < u64_mod → v < 256 ^ 2 → r8 (w16 m a v) ≡ put 2 v (r8 m) a
unfolding w16
w16-eq-put m a v h fits = wider_write 1 8 w8 refl w8-eq-put m a v h

pub w32-eq-put :
    (m : SimpleMemory) (a v : ℕ) → a < u64_mod → v < 256 ^ 4 → r8 (w32 m a v) ≡ put 4 v (r8 m) a
unfolding w32
w32-eq-put m a v h fits = wider_write 2 16 w16 refl w16-eq-put m a v h

pub w64-eq-put :
    (m : SimpleMemory) (a v : ℕ) → a < u64_mod → v < 256 ^ 8 → r8 (w64 m a v) ≡ put 8 v (r8 m) a
unfolding w64
w64-eq-put m a v h fits = wider_write 4 32 w32 refl w32-eq-put m a v h

pub w128-eq-put :
    (m : SimpleMemory) (a v : ℕ) → a < u64_mod → v < 256 ^ 16 → r8 (w128 m a v) ≡ put 16 v (r8 m) a
unfolding w128
w128-eq-put m a v h fits = wider_write 8 64 w64 refl w64-eq-put m a v h
