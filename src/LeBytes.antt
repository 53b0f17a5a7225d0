-- ===== src/LeBytes.antt =====
-- The trait `LeBytes` of gdbstub for an unsigned integer, which the program takes from there: the
-- operations as a record, and what its documentation says of them for a type of `size` bytes.
use native.Mathlib.Nat.{pow-suc}
use riscv_trace_debugger.Prelude.{
  ℕ, zero, suc, ◌+◌, ◌*◌, ◌/◌, ◌%◌, ◌^◌, ◌≤◌, ◌<◌, ◌≡◌, refl, Option, none, some, List, [], ◌∷◌,
  ◌++◌, length, drop, arith,
}

pub record LeBytes : Type 0 where
  -- the buffer with the bytes at its front, and their number
  pub to_le_bytes : ℕ → List ℕ → Option (List ℕ × ℕ)
  pub from_le_bytes : List ℕ → Option ℕ

-- The bytes of a number, the lowest one first.
unfoldable pub encode : ℕ → ℕ → List ℕ
encode zero v = []
encode (suc n) v = (v % 256) ∷ encode n (v / 256)

unfoldable pub decode : List ℕ → ℕ
decode [] = 0
decode (b ∷ bs) = b + 256 * decode bs

pub record IsLeBytes (size : ℕ) (u : LeBytes) : Type 0 where
  pub to_le_bytes_fits :
      (v : ℕ) (buf : List ℕ)
      → v < 256 ^ size
      → size ≤ length buf
      → u.to_le_bytes v buf ≡ some (encode size v ++ drop size buf, size)
  pub to_le_bytes_short : (v : ℕ) (buf : List ℕ) → length buf < size → u.to_le_bytes v buf ≡ none
  pub from_le_bytes_exact :
      (bytes : List ℕ) → length bytes ≡ size → u.from_le_bytes bytes ≡ some (decode bytes)

pub length-encode : (n v : ℕ) → length (encode n v) ≡ n
unfolding encode
length-encode zero v = refl
length-encode (suc n) v = omega (arith, length-encode n (v / 256))

pub decode-encode : (n v : ℕ) → v < 256 ^ n → decode (encode n v) ≡ v
unfolding encode decode
decode-encode zero v h = omega arith
decode-encode (suc n) v h = omega (arith, decode-encode n (v / 256) (omega (arith, pow-suc 256 n)))
