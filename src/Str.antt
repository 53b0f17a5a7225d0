-- ===== src/Str.antt =====
-- The functions of `str` and of the unsigned integers of the standard library that the readers of
-- traces and the handlers of files use. A text is the list of its code points.
pub mod Bounds
pub mod Display
pub mod Prefixes
pub mod Registers
pub mod Split
pub mod Utf8
use Prim.Native.Char.{code}
use Prim.Native.String.{String}
use riscv_trace_debugger.Prelude.{
  ℕ, zero, suc, ◌+◌, ◌-◌, ◌*◌, ◌/◌, ◌%◌, ◌^◌, Bool, true, false, ◌&&◌, ◌||◌, Option, none, some,
  List, [], ◌∷◌, ◌++◌, ltb, leb, ◌==◌, if◌then◌else◌, ◌>>=◌,
}
use riscv_trace_debugger.Trace.{Text}

-- The code points of a literal.
abbrev pub codes : String → Text
codes String.[] = []
codes (String.◌∷◌ c s) = code c ∷ codes s

unfoldable pub strip_prefix : Text → Text → Option Text
strip_prefix [] s = some s
strip_prefix (p ∷ ps) [] = none
strip_prefix (p ∷ ps) (c ∷ s) = if p == c then strip_prefix ps s else none

-- `str::len`: the bytes of the encoding in UTF-8.
unfoldable pub len : Text → ℕ
len [] = 0
len (c ∷ s) =
    (if ltb c 0x80 then 1 else if ltb c 0x800 then 2 else if ltb c 0x10000 then 3 else 4) + len s

abbrev pub is_some {ℓ} : {A : Type ℓ} → Option A → Bool
is_some none = false
is_some (some a) = true

unfoldable pub starts_with : Text → Text → Bool
unfolding strip_prefix
starts_with prefix s = is_some (strip_prefix prefix s)

unfoldable pub text_eq : Text → Text → Bool
text_eq [] [] = true
text_eq [] (d ∷ t) = false
text_eq (c ∷ s) [] = false
text_eq (c ∷ s) (d ∷ t) = c == d && text_eq s t

-- `char::is_whitespace`: the property White_Space of Unicode.
unfoldable pub is_whitespace : ℕ → Bool
is_whitespace c =
    (leb 9 c && leb c 13)
    || c == 0x20
    || c == 0x85
    || c == 0xa0
    || c == 0x1680
    || (leb 0x2000 c && leb c 0x200a)
    || c == 0x2028
    || c == 0x2029
    || c == 0x202f
    || c == 0x205f
    || c == 0x3000

unfoldable pub trim_start : Text → Text
unfolding is_whitespace
trim_start [] = []
trim_start (c ∷ s) = if is_whitespace c then trim_start s else c ∷ s

-- A character stays if one that is no white space is behind it or it is none itself.
unfoldable pub trim_end : Text → Text
unfolding is_whitespace
trim_end [] = []
trim_end (c ∷ s) = elim (trim_end s) [
  | [] ↦ if is_whitespace c then [] else c ∷ []
  | d ∷ rest ↦ c ∷ d ∷ rest
]

unfoldable pub trim : Text → Text
unfolding trim_start trim_end
trim s = trim_end (trim_start s)

unfoldable pub trim_start_matches : ℕ → Text → Text
trim_start_matches p [] = []
trim_start_matches p (c ∷ s) = if c == p then trim_start_matches p s else c ∷ s

-- The first of the parts gets one more character in front.
abbrev pub longer : ℕ → List Text → List Text
longer c [] = (c ∷ []) ∷ []
longer c (part ∷ parts) = (c ∷ part) ∷ parts

unfoldable pub split_by : (ℕ → Bool) → Text → List Text
split_by sep [] = [] ∷ []
split_by sep (c ∷ s) = let parts = split_by sep s in if sep c then [] ∷ parts else longer c parts

unfoldable pub split : ℕ → Text → List Text
unfolding split_by
split sep s = split_by (λ c. c == sep) s

unfoldable pub split_once : ℕ → Text → Option (Text × Text)
split_once sep [] = none
split_once sep (c ∷ s) = elim (c == sep) [
  | true ↦ some ([], s)
  | false ↦ do r ← split_once sep s; some (c ∷ r.0, r.1)
]

unfoldable pub is_ascii_whitespace : ℕ → Bool
is_ascii_whitespace c = c == 9 || c == 10 || c == 12 || c == 13 || c == 32

unfoldable pub without_empty : List Text → List Text
without_empty [] = []
without_empty ([] ∷ parts) = without_empty parts
without_empty ((c ∷ s) ∷ parts) = (c ∷ s) ∷ without_empty parts

unfoldable pub split_ascii_whitespace : Text → List Text
unfolding split_by is_ascii_whitespace without_empty
split_ascii_whitespace s = without_empty (split_by is_ascii_whitespace s)

-- `char::to_digit` for a radix up to 36.
unfoldable pub to_digit : ℕ → ℕ → Option ℕ
to_digit radix c =
    let d : ℕ =
      if leb b'0' c && leb c b'9'
      then c - b'0'
      else if leb b'a' c && leb c b'z'
      then c - b'a' + 10
      else if leb b'A' c && leb c b'Z'
      then c - b'A' + 10
      else radix in
    if ltb d radix then some d else none

-- The digits behind the number `n`; `none` where it does not fit `bits` bits, or no digit stands.
unfoldable pub scan : ℕ → ℕ → ℕ → Text → Option ℕ
unfolding to_digit
scan radix bits n [] = some n
scan radix bits n (c ∷ s) = elim (to_digit radix c) [
  | none ↦ none
  | some d ↦
      let m = n * radix + d in
      let rest = scan radix bits m s in if ltb m (2 ^ bits) then rest else none
]

-- `from_str_radix` of the unsigned type of `bits` bits: a `+` may stand in front of the digits.
unfoldable pub from_str_radix : ℕ → ℕ → Text → Option ℕ
unfolding scan
from_str_radix radix bits [] = none
from_str_radix radix bits (c ∷ []) = scan radix bits 0 (c ∷ [])
from_str_radix radix bits (c ∷ d ∷ s) =
    if c == b'+' then scan radix bits 0 (d ∷ s) else scan radix bits 0 (c ∷ d ∷ s)

-- `usize` as text, for numbers below 100.
unfoldable pub decimal : ℕ → Text
decimal n = if ltb n 10 then (b'0' + n) ∷ [] else (b'0' + n / 10) ∷ (b'0' + n % 10) ∷ []
