-- ===== src/CheriotIbexTrace/Values.antt =====
-- The reader at the text of a store or of a register.
use native.Mathlib.Nat.{mod-lt}
use riscv_trace_debugger.Prelude.{
  ℕ, suc, ◌*◌, ◌/◌, ◌%◌, ◌^◌, ◌<◌, ◌≡◌, refl, sym, ap, subst, ◌∙◌, Bool, true, false, Option, none,
  some, ◌∷◌, ◌++◌, ◌==◌, arith, replicate, bit_or, bit_or_comm, bit_or_disjoint, ok,
}
use riscv_trace_debugger.Trace.{Text, Data, u8, u16, u32, u64, u128}
use riscv_trace_debugger.Memory.{size}
use riscv_trace_debugger.Cpu.Replay.{width, payload}
use riscv_trace_debugger.Str.{codes, len, strip_prefix}
use riscv_trace_debugger.Str.Display.{digit}
use riscv_trace_debugger.Str.Display.Read.{printed, printed-AllPlain, from_str_radix-printed}
use riscv_trace_debugger.Str.Display.Width.{
  printed-NoSep, length-printed, len-AllPlain, trim_start_matches-NoSep,
  trim_start_matches-replicate, split_once-NoSep, split_once-append,
}
use riscv_trace_debugger.Str.Split.{NoSep}
use riscv_trace_debugger.Str.Registers.{strip_prefix-append}
use riscv_trace_debugger.CheriotIbexTrace.{
  strip_hex_prefix, parse_hex, strip_tag, capability_data, read_capability, data_of_len, read_plain,
  read_store_val, read_x_value,
}
use riscv_trace_debugger.CheriotIbexTrace.Print.{
  StoreForm, plain, capability, IsCapability, InForm, hex_data, tag_digit, hex_word, store_text,
  x_text, no_plus, hex_word-AllPlain, plain_text-AllPlain,
}

no_mark : (d : ℕ) → d < 16 → (digit d == b'?') ≡ false
no_mark d lt = ground arith

pub parse_hex-printed :
    (wide bits n : ℕ) → 0 < bits → n < 2 ^ bits → parse_hex bits (printed 16 wide bits n) ≡ ok n
unfolding parse_hex
parse_hex-printed wide bits n some_bits fits =
    rw (from_str_radix-printed 16 (omega arith) (omega arith) wide bits n some_bits fits, parse_hex)
      refl

pub read_x_value-x_text :
    (w value : ℕ) (metadata : Option Text)
    → 0 < w
    → value < 2 ^ w
    → read_x_value w (x_text w value metadata) ≡ ok value
unfolding read_x_value strip_hex_prefix
read_x_value-x_text w value none some_bits fits =
    rw
      (
        split_once-NoSep b'+' (hex_word w value)
            (no_plus (hex_word w value) (hex_word-AllPlain w value)),
        strip_prefix-append (codes "0x") (printed 16 8 w value),
        read_x_value,
        strip_hex_prefix,
      )
      (parse_hex-printed 8 w value some_bits fits)
read_x_value-x_text w value (some metadata) some_bits fits =
    rw
      (
        split_once-append b'+' (hex_word w value) metadata
            (no_plus (hex_word w value) (hex_word-AllPlain w value)),
        strip_prefix-append (codes "0x") (printed 16 8 w value),
        read_x_value,
        strip_hex_prefix,
      )
      (parse_hex-printed 8 w value some_bits fits)

hex_data-no_mark : (d : Data) → NoSep (λ c. c == b'?') (hex_data d)
hex_data-no_mark (u8 v) = printed-NoSep 16 (omega arith) (λ c. c == b'?') no_mark 2 8 v
hex_data-no_mark (u16 v) = printed-NoSep 16 (omega arith) (λ c. c == b'?') no_mark 4 16 v
hex_data-no_mark (u32 v) = printed-NoSep 16 (omega arith) (λ c. c == b'?') no_mark 8 32 v
hex_data-no_mark (u64 v) = printed-NoSep 16 (omega arith) (λ c. c == b'?') no_mark 16 64 v
hex_data-no_mark (u128 v) = printed-NoSep 16 (omega arith) (λ c. c == b'?') no_mark 32 128 v

len-printed : (wide bits n : ℕ) → n < 16 ^ suc wide → len (printed 16 (suc wide) bits n) ≡ suc wide
len-printed wide bits n h =
    len-AllPlain (printed 16 (suc wide) bits n)
      (printed-AllPlain 16 (omega arith) (omega arith) (suc wide) bits n)
    ∙ length-printed wide bits n h

data_of_len-hex_data :
    (d : Data)
    → payload d < 256 ^ size (width d)
    → data_of_len (len (hex_data d)) (hex_data d) ≡ ok d
unfolding data_of_len
data_of_len-hex_data (u8 v) h =
    rw
      (
        len-printed 1 8 v (omega (arith, h)),
        parse_hex-printed 2 8 v (omega arith) (omega (arith, h)),
        data_of_len,
      )
      refl
data_of_len-hex_data (u16 v) h =
    rw
      (
        len-printed 3 16 v (omega (arith, h)),
        parse_hex-printed 4 16 v (omega arith) (omega (arith, h)),
        data_of_len,
      )
      refl
data_of_len-hex_data (u32 v) h =
    rw
      (
        len-printed 7 32 v (omega (arith, h)),
        parse_hex-printed 8 32 v (omega arith) (omega (arith, h)),
        data_of_len,
      )
      refl
data_of_len-hex_data (u64 v) h =
    rw
      (
        len-printed 15 64 v (omega (arith, h)),
        parse_hex-printed 16 64 v (omega arith) (omega (arith, h)),
        data_of_len,
      )
      refl
data_of_len-hex_data (u128 v) h =
    rw
      (
        len-printed 31 128 v (omega (arith, h)),
        parse_hex-printed 32 128 v (omega arith) (omega (arith, h)),
        data_of_len,
      )
      refl

read_plain-text :
    (marks : ℕ) (d : Data)
    → payload d < 256 ^ size (width d)
    → read_plain (codes "0x" ++ (replicate marks b'?' ++ hex_data d)) ≡ ok d
unfolding read_plain strip_hex_prefix
read_plain-text marks d h =
    rw
      (
        strip_prefix-append (codes "0x") (replicate marks b'?' ++ hex_data d),
        trim_start_matches-replicate b'?' marks (hex_data d),
        trim_start_matches-NoSep b'?' (hex_data d) (hex_data-no_mark d),
        read_plain,
        strip_hex_prefix,
      )
      (data_of_len-hex_data d h)

halves32 : (v : ℕ) → v < 2 ^ 64 → bit_or (v / 2 ^ 32 * 2 ^ 32 % 2 ^ 64) (v % 2 ^ 32) ≡ v
halves32 v h =
    let kept : v / 2 ^ 32 * 2 ^ 32 % 2 ^ 64 ≡ v / 2 ^ 32 * 2 ^ 32 = omega (arith, h) in
    rw
      (
        kept,
        bit_or_comm (v / 2 ^ 32 * 2 ^ 32) (v % 2 ^ 32),
        bit_or_disjoint 32 (v % 2 ^ 32) (v / 2 ^ 32) (mod-lt v (omega arith)),
      )
      (omega arith)

halves64 : (v : ℕ) → v < 2 ^ 128 → bit_or (v / 2 ^ 64 * 2 ^ 64 % 2 ^ 128) (v % 2 ^ 64) ≡ v
halves64 v h =
    let kept : v / 2 ^ 64 * 2 ^ 64 % 2 ^ 128 ≡ v / 2 ^ 64 * 2 ^ 64 = omega (arith, h) in
    rw
      (
        kept,
        bit_or_comm (v / 2 ^ 64 * 2 ^ 64) (v % 2 ^ 64),
        bit_or_disjoint 64 (v % 2 ^ 64) (v / 2 ^ 64) (mod-lt v (omega arith)),
      )
      (omega arith)

strip_tag-digit : (tag : Bool) (s : Text) → strip_tag (tag_digit tag ∷ s) ≡ ok (s, tag)
unfolding strip_tag strip_prefix
strip_tag-digit true s = refl
strip_tag-digit false s = refl

-- The two words of a capability put together again.
joins_words :
    (w : ℕ) (d : Data)
    → IsCapability w d
    → payload d < 256 ^ size (width d)
    → capability_data w (printed 16 8 w (payload d / 2 ^ w)) (printed 16 8 w (payload d % 2 ^ w))
      ≡ ok d
unfolding capability_data
joins_words w (u8 v) e h = absurd e
joins_words w (u16 v) e h = absurd e
joins_words w (u32 v) e h = absurd e
joins_words w (u64 v) e h =
    subst
      (λ w.
        capability_data w (printed 16 8 w (v / 2 ^ w)) (printed 16 8 w (v % 2 ^ w)) ≡ ok (u64 v))
      (sym e)
      (rw
        (
          parse_hex-printed 8 32 (v / 2 ^ 32) (omega arith) (omega (arith, h)),
          parse_hex-printed 8 32 (v % 2 ^ 32) (omega arith) (omega arith),
          capability_data,
        )
        (ap (λ n. ok (u64 n)) (halves32 v (omega (arith, h)))))
joins_words w (u128 v) e h =
    subst
      (λ w.
        capability_data w (printed 16 8 w (v / 2 ^ w)) (printed 16 8 w (v % 2 ^ w)) ≡ ok (u128 v))
      (sym e)
      (rw
        (
          parse_hex-printed 8 64 (v / 2 ^ 64) (omega arith) (omega (arith, h)),
          parse_hex-printed 8 64 (v % 2 ^ 64) (omega arith) (omega arith),
          capability_data,
        )
        (ap (λ n. ok (u128 n)) (halves64 v (omega (arith, h)))))

-- Every form of a store is read as its value; the tag of a capability is passed over.
pub read_store_val-store_text :
    (w : ℕ) (form : StoreForm) (d : Data)
    → InForm w form d
    → payload d < 256 ^ size (width d)
    → read_store_val w (store_text w form d) ≡ ok d
unfolding read_store_val read_capability strip_hex_prefix
read_store_val-store_text w (plain marks) d form h =
    let text = codes "0x" ++ (replicate marks b'?' ++ hex_data d) in
    rw (split_once-NoSep b'+' text (no_plus text (plain_text-AllPlain marks d)), read_store_val)
      (read_plain-text marks d h)
read_store_val-store_text w (capability tag) d form h =
    let low = hex_word w (payload d % 2 ^ w) in
    let high = printed 16 8 w (payload d / 2 ^ w) in
    rw
      (
        split_once-append b'+' low (codes "0x" ++ tag_digit tag ∷ high)
            (no_plus low (hex_word-AllPlain w (payload d % 2 ^ w))),
        strip_prefix-append (codes "0x") (printed 16 8 w (payload d % 2 ^ w)),
        strip_prefix-append (codes "0x") (tag_digit tag ∷ high),
        strip_tag-digit tag high,
        read_store_val,
        read_capability,
        strip_hex_prefix,
      )
      (joins_words w d form h)
