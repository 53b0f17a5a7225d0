-- ===== src/CheriotIbexTrace/Print.antt =====
-- The texts for a store and a write of a register, in every form that traces of Cheriot-Ibex have.
use riscv_trace_debugger.Prelude.{
  ℕ, zero, suc, ◌/◌, ◌%◌, ◌^◌, ◌≡◌, refl, Bool, true, false, Option, none, some, [], ◌∷◌, ◌++◌,
  ◌==◌, arith, replicate,
}
use riscv_trace_debugger.Trace.{Text, Data, u8, u16, u32, u64, u128}
use riscv_trace_debugger.Cpu.Replay.{payload}
use riscv_trace_debugger.Str.{codes, is_ascii_whitespace}
use riscv_trace_debugger.Str.Display.Read.{
  printed, IsPlain, AllPlain, AllPlain-append, printed-AllPlain,
}
use riscv_trace_debugger.Str.Split.{NoSep, NoSep-append, AllPlain-NoSep}

-- A value of the usual widths, after as many `?` as one likes; or a capability, with its tag.
pub data StoreForm : Type 0 where
  plain : ℕ → StoreForm
  capability : Bool → StoreForm

-- A capability is two words of the architecture.
abbrev pub IsCapability : ℕ → Data → Type 0
IsCapability w (u8 v) = ⊥
IsCapability w (u16 v) = ⊥
IsCapability w (u32 v) = ⊥
IsCapability w (u64 v) = w ≡ 32
IsCapability w (u128 v) = w ≡ 64

abbrev pub InForm : ℕ → StoreForm → Data → Type 0
InForm w (plain marks) d = Unit
InForm w (capability tag) d = IsCapability w d

-- All the digits of a width.
abbrev pub hex_data : Data → Text
hex_data (u8 v) = printed 16 2 8 v
hex_data (u16 v) = printed 16 4 16 v
hex_data (u32 v) = printed 16 8 32 v
hex_data (u64 v) = printed 16 16 64 v
hex_data (u128 v) = printed 16 32 128 v

abbrev pub tag_digit : Bool → ℕ
tag_digit true = b'1'
tag_digit false = b'0'

abbrev pub hex_word : ℕ → ℕ → Text
hex_word w n = codes "0x" ++ printed 16 8 w n

abbrev pub store_text : ℕ → StoreForm → Data → Text
store_text w (plain marks) d = codes "0x" ++ (replicate marks b'?' ++ hex_data d)
store_text w (capability tag) d =
    hex_word w (payload d % 2 ^ w)
    ++ b'+' ∷ (codes "0x" ++ tag_digit tag ∷ printed 16 8 w (payload d / 2 ^ w))

-- A register, whose metadata may follow.
abbrev pub x_text : ℕ → ℕ → Option Text → Text
x_text w value none = hex_word w value
x_text w value (some metadata) = hex_word w value ++ b'+' ∷ metadata

abbrev pub NoSpace : Option Text → Type 0
NoSpace none = Unit
NoSpace (some metadata) = NoSep is_ascii_whitespace metadata

pub no_plus : (s : Text) → AllPlain s → NoSep (λ c. c == b'+') s
no_plus [] h = tt
no_plus (c ∷ s) h = let low = h.0.0 in (ground arith, no_plus s h.1)

pub hex_word-AllPlain : (w n : ℕ) → AllPlain (hex_word w n)
hex_word-AllPlain w n =
    AllPlain-append (codes "0x") (printed 16 8 w n) (ground arith)
      (printed-AllPlain 16 (omega arith) (omega arith) 8 w n)

hex_data-AllPlain : (d : Data) → AllPlain (hex_data d)
hex_data-AllPlain (u8 v) = printed-AllPlain 16 (omega arith) (omega arith) 2 8 v
hex_data-AllPlain (u16 v) = printed-AllPlain 16 (omega arith) (omega arith) 4 16 v
hex_data-AllPlain (u32 v) = printed-AllPlain 16 (omega arith) (omega arith) 8 32 v
hex_data-AllPlain (u64 v) = printed-AllPlain 16 (omega arith) (omega arith) 16 64 v
hex_data-AllPlain (u128 v) = printed-AllPlain 16 (omega arith) (omega arith) 32 128 v

pub plain_text-AllPlain :
    (marks : ℕ) (d : Data) → AllPlain (codes "0x" ++ (replicate marks b'?' ++ hex_data d))
plain_text-AllPlain marks d = (ground arith, (ground arith, marked marks))
  where
    marked : (marks : ℕ) → AllPlain (replicate marks b'?' ++ hex_data d)
    marked zero = hex_data-AllPlain d
    marked (suc marks) = (ground arith, marked marks)

pub store_text-NoSep :
    (w : ℕ) (form : StoreForm) (d : Data) → NoSep is_ascii_whitespace (store_text w form d)
unfolding is_ascii_whitespace
store_text-NoSep w (plain marks) d =
    AllPlain-NoSep (store_text w (plain marks) d) (plain_text-AllPlain marks d)
store_text-NoSep w (capability tag) d =
    let low = hex_word w (payload d % 2 ^ w) in
    let high = codes "0x" ++ tag_digit tag ∷ printed 16 8 w (payload d / 2 ^ w) in
    NoSep-append is_ascii_whitespace low (b'+' ∷ high)
      (AllPlain-NoSep low (hex_word-AllPlain w (payload d % 2 ^ w)))
      (
        refl,
        AllPlain-NoSep high (
          ground arith,
          (
            ground arith,
            (tagged tag, printed-AllPlain 16 (omega arith) (omega arith) 8 w (payload d / 2 ^ w)),
          ),
        ),
      )
  where
    tagged : (tag : Bool) → IsPlain (tag_digit tag)
    tagged true = ground arith
    tagged false = ground arith

pub x_text-NoSep :
    (w value : ℕ) (metadata : Option Text)
    → NoSpace metadata
    → NoSep is_ascii_whitespace (x_text w value metadata)
unfolding is_ascii_whitespace
x_text-NoSep w value none h = AllPlain-NoSep (hex_word w value) (hex_word-AllPlain w value)
x_text-NoSep w value (some metadata) h =
    NoSep-append is_ascii_whitespace (hex_word w value) (b'+' ∷ metadata)
      (AllPlain-NoSep (hex_word w value) (hex_word-AllPlain w value)) (refl, h)
