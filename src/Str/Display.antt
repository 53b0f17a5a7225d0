-- ===== src/Str/Display.antt =====
-- A number as text.
pub mod Read
pub mod Width
use riscv_trace_debugger.Prelude.{
  ℕ, zero, suc, ◌+◌, ◌-◌, ◌/◌, ◌%◌, List, [], ◌∷◌, ltb, ◌==◌, if◌then◌else◌,
}
use riscv_trace_debugger.Trace.{Text}

-- The digit of a number below 36, as a letter from 10 on.
abbrev pub digit : ℕ → ℕ
digit d = if ltb d 10 then b'0' + d else b'a' + (d - 10)

-- The digits of a number of at most `bits` bits, in front of a text.
unfoldable pub digits : ℕ → ℕ → ℕ → Text → Text
digits radix zero n out = out
digits radix (suc bits) n out =
    let more = digits radix bits (n / radix) (digit (n % radix) ∷ out) in
    if ltb n radix then digit n ∷ out else more

-- A `u64` under `{}`.
unfoldable pub display_u64 : ℕ → Text
unfolding digits
display_u64 n = digits 10 64 n []
