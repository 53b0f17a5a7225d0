-- ===== src/Str/Prefixes.antt =====
-- How many parts of a line begin as a reader looks for them.
use riscv_trace_debugger.Prelude.{
  ℕ, zero, suc, ◌+◌, ◌≡◌, ◌≢◌, refl, Option, none, some, List, [], ◌∷◌, ◌++◌, arith,
}
use riscv_trace_debugger.Trace.{Text}
use riscv_trace_debugger.Str.{codes, strip_prefix, decimal}

-- One if there is a value.
abbrev pub number {ℓ} : {A : Type ℓ} → Option A → ℕ
number none = 0
number (some a) = 1

-- One if the part begins with the prefix.
abbrev pub has : Text → Text → ℕ
has prefix part = number (strip_prefix prefix part)

unfoldable pub count : (Text → ℕ) → List Text → ℕ
count f [] = 0
count f (part ∷ parts) = f part + count f parts

-- The prefix of a register, which ends in `suffix`.
abbrev pub register_prefix : Text → ℕ → Text
register_prefix suffix index = codes "x" ++ decimal index ++ suffix

-- How many of the registers from `index` on a part begins with.
unfoldable pub registers_from : Text → ℕ → ℕ → Text → ℕ
registers_from suffix zero index part = 0
registers_from suffix (suc rounds) index part =
    has (register_prefix suffix index) part + registers_from suffix rounds (index + 1) part

-- x1 to x31.
abbrev pub registers : Text → Text → ℕ
registers suffix part = registers_from suffix 31 1 part

-- A part begins with one letter only.
pub has-other :
    (p : ℕ) (ps : Text) (q : ℕ) (qs part : Text) {rest : Text}
    → p ≢ q
    → strip_prefix (p ∷ ps) part ≡ some rest
    → has (q ∷ qs) part ≡ 0
unfolding strip_prefix
has-other p ps q qs [] ne e = refl
has-other p ps q qs (c ∷ part) ne e = ground arith

pub registers_from-other :
    (suffix : Text) (p : ℕ) (ps : Text) (rounds index : ℕ) (part : Text) {rest : Text}
    → p ≢ 120
    → strip_prefix (p ∷ ps) part ≡ some rest
    → registers_from suffix rounds index part ≡ 0
unfolding registers_from
registers_from-other suffix p ps zero index part ne e = refl
registers_from-other suffix p ps (suc rounds) index part ne e = omega (
  arith,
  has-other p ps 120 (decimal index ++ suffix) part ne e,
  registers_from-other suffix p ps rounds (index + 1) part ne e,
)
