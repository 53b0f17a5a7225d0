-- ===== src/Str/Bounds.antt =====
-- A number that was read fits its type.
use riscv_trace_debugger.Prelude.{
  ℕ, zero, suc, ◌+◌, ◌*◌, ◌^◌, ◌<◌, ◌≡◌, some, [], ◌∷◌, ◌==◌, arith, Option-cases, Bool-cases, inl,
  inr,
}
use native.Mathlib.Nat.{pow-suc}
use riscv_trace_debugger.Trace.{Text}
use riscv_trace_debugger.Str.{to_digit, scan, from_str_radix}

pub two_pow_pos : (n : ℕ) → 0 < 2 ^ n
two_pow_pos zero = omega arith
two_pow_pos (suc n) = omega (arith, pow-suc 2 n, two_pow_pos n)

scan-lt :
    (radix bits n : ℕ) (s : Text) (v : ℕ)
    → n < 2 ^ bits
    → scan radix bits n s ≡ some v
    → v < 2 ^ bits
unfolding scan
scan-lt radix bits n [] v fits h = ground arith
scan-lt radix bits n (c ∷ s) v fits h = elim (Option-cases (to_digit radix c)) [
  | inl e ↦ ground arith
  | inr (d, e) ↦ ground (arith, scan-lt radix bits (n * radix + d) s v)
]

pub from_str_radix-lt :
    (radix bits : ℕ) (s : Text) {v : ℕ} → from_str_radix radix bits s ≡ some v → v < 2 ^ bits
unfolding from_str_radix
from_str_radix-lt radix bits [] h = cc
from_str_radix-lt radix bits (c ∷ []) {v} h = scan-lt radix bits 0 (c ∷ []) v (two_pow_pos bits) h
from_str_radix-lt radix bits (c ∷ d ∷ s) {v} h = elim (Bool-cases (c == b'+')) [
  | inl e ↦ scan-lt radix bits 0 (d ∷ s) v (two_pow_pos bits) (rw e at h)
  | inr e ↦ scan-lt radix bits 0 (c ∷ d ∷ s) v (two_pow_pos bits) (rw e at h)
]
