-- ===== src/Str/Registers.antt =====
-- The prefixes by which the readers find a register.
use riscv_trace_debugger.Prelude.{ℕ, ◌<◌, ◌≡◌, ◌≢◌, refl, none, some, [], ◌∷◌, ◌++◌, arith, ==_refl}
use riscv_trace_debugger.Trace.{Text}
use riscv_trace_debugger.Str.{strip_prefix, decimal}
use riscv_trace_debugger.Str.Display.Read.{AllPlain}

pub strip_prefix-append : (p s : Text) → strip_prefix p (p ++ s) ≡ some s
unfolding strip_prefix
strip_prefix-append [] s = refl
strip_prefix-append (c ∷ p) s = rw (==_refl c, strip_prefix) (strip_prefix-append p s)

-- Another number, whose digits an `=` ends, is not at the front.
pub strip_prefix-decimal_ne :
    (i j : ℕ) (t s : Text)
    → i < 100
    → j < 100
    → i ≢ j
    → strip_prefix (decimal j ++ b'=' ∷ t) (decimal i ++ b'=' ∷ s) ≡ none
unfolding strip_prefix decimal
strip_prefix-decimal_ne i j t s hi hj ne = ground arith

pub decimal-AllPlain : (i : ℕ) → i < 100 → AllPlain (decimal i)
unfolding decimal
decimal-AllPlain i h = ground arith
