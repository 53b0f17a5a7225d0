-- ===== src/CheriotIbexTrace/Fits.antt =====
-- The numbers of a line that was read fit the types of the source.
use riscv_trace_debugger.Prelude.{
  ℕ, ◌*◌, ◌%◌, ◌^◌, ◌<◌, ◌≡◌, Option, none, some, arith, Option-cases, inl, inr, Result, ok, err,
  ◌==◌, bit_or, bit_or_comm, bit_or_disjoint,
}
use riscv_trace_debugger.Fallible.{◌>>=◌, ok_or, Ensures, Ensures-bind, Ensures-if, Ensures-ok_or}
use riscv_trace_debugger.Trace.{Text, Data, u8, u16, u32, u64, u128}
use riscv_trace_debugger.Cpu.Replay.{width, payload}
use riscv_trace_debugger.Memory.{size}
use riscv_trace_debugger.Str.{len, trim_start_matches, split_once, from_str_radix}
use riscv_trace_debugger.Str.Bounds.{from_str_radix-lt}
use riscv_trace_debugger.CheriotIbexTrace.{
  Error, parsing, invalid_hex, strip_hex_prefix, parse_hex, strip_tag, capability_data,
  read_capability, data_of_len, read_plain, read_store_val,
}

abbrev pub FitsData : Data → Type 0
FitsData value = payload value < 256 ^ size (width value)

abbrev pub FitsStore : Option Data → Type 0
FitsStore none = Unit
FitsStore (some value) = FitsData value

pub number_fits :
    (radix bits : ℕ) (s : Text)
    → Ensures (λ v. v < 2 ^ bits) (ok_or {E = Error} (from_str_radix radix bits s) parsing)
number_fits radix bits s =
    Ensures-ok_or (λ v. v < 2 ^ bits) (from_str_radix radix bits s) parsing
      (λ v. from_str_radix-lt radix bits s)

pub any : {A : Type 0} (r : Result Error A) → Ensures (λ _. Unit) r
any (ok a) = tt
any (err e) = tt

pub parse_hex_fits : (bits : ℕ) (s : Text) → Ensures (λ v. v < 2 ^ bits) (parse_hex bits s)
unfolding parse_hex
parse_hex_fits bits s =
    Ensures-ok_or (λ v. v < 2 ^ bits) (from_str_radix 16 bits s) invalid_hex
      (λ v. from_str_radix-lt 16 bits s)

-- The two halves side by side.
halves_lt :
    (high low : ℕ)
    → (high < 2 ^ 32 → low < 2 ^ 32 → bit_or (high * 2 ^ 32 % 2 ^ 64) low < 256 ^ 8)
      × (high < 2 ^ 64 → low < 2 ^ 64 → bit_or (high * 2 ^ 64 % 2 ^ 128) low < 256 ^ 16)
halves_lt high low = (
  λ h l.
      rw (kept32 h, bit_or_comm (high * 2 ^ 32) low, bit_or_disjoint 32 low high l) (omega arith),
  λ h l.
      rw (kept64 h, bit_or_comm (high * 2 ^ 64) low, bit_or_disjoint 64 low high l) (omega arith),
)
  where
    kept32 : high < 2 ^ 32 → high * 2 ^ 32 % 2 ^ 64 ≡ high * 2 ^ 32
    kept32 h = omega arith

    kept64 : high < 2 ^ 64 → high * 2 ^ 64 % 2 ^ 128 ≡ high * 2 ^ 64
    kept64 h = omega arith

capability_data-FitsData :
    (w : ℕ) (metadata val : Text) → Ensures FitsData (capability_data w metadata val)
unfolding capability_data
capability_data-FitsData w metadata val =
    Ensures-if FitsData (w == 32) _ _
      (Ensures-bind (λ v. v < 2 ^ 32) FitsData (parse_hex 32 metadata) _
        (parse_hex_fits 32 metadata)
        λ high h.
          Ensures-bind (λ v. v < 2 ^ 32) FitsData (parse_hex 32 val) _ (parse_hex_fits 32 val)
            λ low l. (halves_lt high low).0 h l)
      (Ensures-if FitsData (w == 64) _ _
        (Ensures-bind (λ v. v < 2 ^ 64) FitsData (parse_hex 64 metadata) _
          (parse_hex_fits 64 metadata)
          λ high h.
            Ensures-bind (λ v. v < 2 ^ 64) FitsData (parse_hex 64 val) _ (parse_hex_fits 64 val)
              λ low l. (halves_lt high low).1 h l)
        tt)

read_capability-FitsData :
    (w : ℕ) (first second : Text) → Ensures FitsData (read_capability w first second)
unfolding read_capability
read_capability-FitsData w first second =
    Ensures-bind (λ _. Unit) FitsData (strip_hex_prefix first) _ (any _)
      λ val _.
        Ensures-bind (λ _. Unit) FitsData (strip_hex_prefix second) _ (any _)
          λ metadata _.
            Ensures-bind (λ _. Unit) FitsData (strip_tag metadata) _ (any _)
              λ tagged _. capability_data-FitsData w tagged.0 val

data_of_len-FitsData : (n : ℕ) (val : Text) → Ensures FitsData (data_of_len n val)
unfolding data_of_len
data_of_len-FitsData n val = Ensures-if FitsData (n == 2) _ _ (digits 8 u8 (λ v h. h)) (
    Ensures-if FitsData (n == 4) _ _ (digits 16 u16 (λ v h. omega arith)) (
      Ensures-if FitsData (n == 8) _ _ (digits 32 u32 (λ v h. omega arith)) (
        Ensures-if FitsData (n == 16) _ _ (digits 64 u64 (λ v h. omega arith))
          (Ensures-if FitsData (n == 32) _ _ (digits 128 u128 (λ v h. omega arith)) tt))))
  where
    digits :
        (bits : ℕ) (make : ℕ → Data)
        → ((v : ℕ) → v < 2 ^ bits → FitsData (make v))
        → Ensures FitsData (parse_hex bits val >>= (λ v. ok (make v)))
    digits bits make fits =
        Ensures-bind (λ v. v < 2 ^ bits) FitsData (parse_hex bits val) _ (parse_hex_fits bits val)
          fits

read_plain-FitsData : (val : Text) → Ensures FitsData (read_plain val)
unfolding read_plain
read_plain-FitsData val =
    Ensures-bind (λ _. Unit) FitsData (strip_hex_prefix val) _ (any _)
      λ val' _.
        data_of_len-FitsData (len (trim_start_matches b'?' val')) (trim_start_matches b'?' val')

pub read_store_val-FitsData : (w : ℕ) (val : Text) → Ensures FitsData (read_store_val w val)
unfolding read_store_val
read_store_val-FitsData w val = elim (Option-cases (split_once b'+' val)) [
  | inl e ↦ rw (e, read_store_val) (read_plain-FitsData val)
  | inr ((first, second), e) ↦ rw (e, read_store_val) (read_capability-FitsData w first second)
]
