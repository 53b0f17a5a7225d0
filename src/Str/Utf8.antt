-- ===== src/Str/Utf8.antt =====
-- `str::from_utf8`: the characters of a well-formed text in UTF-8; `none` is an error.
use mathlib.Core.Option
use riscv_trace_debugger.Prelude.{
  ℕ, true, false, ◌+◌, ◌-◌, ◌*◌, ◌&&◌, Option, none, some, List, [], ◌∷◌, leb, ltb, ◌==◌,
  if◌then◌else◌,
}
use riscv_trace_debugger.Trace.{Text}

-- What a first byte says: how many bytes follow, the range of the next one, and its own bits.
pub record Lead : Type 0 where
  pub follow : ℕ
  pub low : ℕ
  pub high : ℕ
  pub bits : ℕ

abbrev lead_of : ℕ → ℕ → ℕ → ℕ → Option Lead
lead_of follow low high bits =
    some (record { follow = follow; low = low; high = high; bits = bits })

unfoldable pub lead : ℕ → Option Lead
lead b =
    if ltb b 0x80
    then lead_of 0 0x80 0xbf b
    else if leb 0xc2 b && leb b 0xdf
    then lead_of 1 0x80 0xbf (b - 0xc0)
    else if b == 0xe0
    then lead_of 2 0xa0 0xbf (b - 0xe0)
    else if b == 0xed
    then lead_of 2 0x80 0x9f (b - 0xe0)
    else if leb 0xe1 b && leb b 0xef
    then lead_of 2 0x80 0xbf (b - 0xe0)
    else if b == 0xf0
    then lead_of 3 0x90 0xbf (b - 0xf0)
    else if leb 0xf1 b && leb b 0xf3
    then lead_of 3 0x80 0xbf (b - 0xf0)
    else if b == 0xf4
    then lead_of 3 0x80 0x8f (b - 0xf0)
    else none

-- The bytes behind the first of a character: `follow` of them are still to come, the next one
-- between `low` and `high`, and `bits` are those of the character so far.
unfoldable pub continue_utf8 : List ℕ → Lead → Option Text
unfolding lead
continue_utf8 [] l = if l.follow == 0 then some (l.bits ∷ []) else none
continue_utf8 (b ∷ s) l = elim (l.follow == 0) [
  | true ↦ elim (lead b) [ none ↦ none | some l' ↦ Option.map (◌∷◌ l.bits) (continue_utf8 s l') ]
  | false ↦ elim (leb l.low b && leb b l.high) [
    | false ↦ none
    | true ↦
        continue_utf8 s (record {
          follow = l.follow - 1;
          low = 0x80;
          high = 0xbf;
          bits = l.bits * 64 + (b - 0x80);
        })
  ]
]

unfoldable pub from_utf8 : List ℕ → Option Text
unfolding lead continue_utf8
from_utf8 [] = some []
from_utf8 (b ∷ s) = elim (lead b) [ none ↦ none | some l ↦ continue_utf8 s l ]
