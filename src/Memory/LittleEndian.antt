-- ===== src/Memory/LittleEndian.antt =====
-- Little-endian values in a byte-addressed space of 2 ^ 64 bytes that wraps at its end: what the
-- accesses of each width are measured against.
use riscv_trace_debugger.Prelude.{
  ℕ, zero, suc, ◌+◌, ◌*◌, ◌/◌, ◌%◌, ◌^◌, ◌<◌, ◌≡◌, ◌≢◌, refl, ap, fun_ext, arith, ◌==◌,
  if◌then◌else◌, Bool-cases, ==_iff, inl, inr,
}
use native.Mathlib.Nat.{pow-suc}

abbrev pub u64_mod : ℕ
u64_mod = 2 ^ 64

-- What each address holds.
abbrev pub Bytes : Type 0
Bytes = ℕ → ℕ

abbrev pub IsBytes : Bytes → Type 0
IsBytes f = (x : ℕ) → f x < 256

-- The value of the `n` bytes from `a` on, the lowest byte first.
unfoldable pub le_value : ℕ → Bytes → ℕ → ℕ
le_value zero f a = 0
le_value (suc n) f a = f (a % u64_mod) + 256 * le_value n f (a + 1)

unfoldable pub update : Bytes → ℕ → ℕ → Bytes
update f a v x = if a == x then v else f x

-- The bytes after the `n` low bytes of `v` are put from `a` on.
unfoldable pub put : ℕ → ℕ → Bytes → ℕ → Bytes
put zero v f a = f
put (suc n) v f a = put n (v / 256) (update f (a % u64_mod) (v % 256)) (a + 1)

-- `x` is none of the `n` addresses from `a` on.
abbrev pub Outside : ℕ → ℕ → ℕ → Type 0
Outside n a x = (i : ℕ) → i < n → x ≢ (a + i) % u64_mod

Outside-head : (n a x : ℕ) → Outside (suc n) a x → x ≢ a % u64_mod
Outside-head n a x out e = out 0 (omega arith) (omega arith)

Outside-tail : (n a x : ℕ) → Outside (suc n) a x → Outside n (a + 1) x
Outside-tail n a x out i h e = out (suc i) (omega arith) (omega arith)

-- A put changes nothing outside of its range.
pub put-Outside : (n v : ℕ) (f : Bytes) (a x : ℕ) → Outside n a x → put n v f a x ≡ f x
unfolding put update
put-Outside zero v f a x out = refl
put-Outside (suc n) v f a x out = ground (
  arith,
  put-Outside n (v / 256) (update f (a % u64_mod) (v % 256)) (a + 1) x (Outside-tail n a x out),
  Outside-head n a x out,
)

-- Up to 2 ^ 64 bytes in a row have different addresses.
Outside-before : (n a : ℕ) → n < u64_mod → Outside n (a + 1) (a % u64_mod)
Outside-before n a small i h e = omega arith

pub le_value-lt : (n : ℕ) (f : Bytes) (a : ℕ) → IsBytes f → le_value n f a < 256 ^ n
unfolding le_value
le_value-lt zero f a h = omega arith
le_value-lt (suc n) f a h = omega (arith, pow-suc 256 n, h (a % u64_mod), le_value-lt n f (a + 1) h)

update_self : (f : Bytes) (a v : ℕ) → update f a v a ≡ v
unfolding update
update_self f a v = ground arith

-- What was put is read back.
pub le_value-put :
    (n v : ℕ) (f : Bytes) (a : ℕ) → n < u64_mod → v < 256 ^ n → le_value n (put n v f a) a ≡ v
unfolding le_value put
le_value-put zero v f a small fits = omega arith
le_value-put (suc n) v f a small fits = omega (
  arith,
  pow-suc 256 n,
  update_self f (a % u64_mod) (v % 256),
  put-Outside n (v / 256) f' (a + 1) (a % u64_mod) (Outside-before n a (omega arith)),
  le_value-put n (v / 256) f' (a + 1) (omega arith) (omega (arith, pow-suc 256 n)),
)
  where
    f' : Bytes
    f' = update f (a % u64_mod) (v % 256)

-- Putting the old value back over bytes that agree with the old ones elsewhere restores them.
put_back :
    (n : ℕ) (f g : Bytes) (a : ℕ)
    → IsBytes f
    → ((x : ℕ) → Outside n a x → g x ≡ f x)
    → (x : ℕ) → put n (le_value n f a) g a x ≡ f x
unfolding le_value put
put_back zero f g a bytes same x = same x (λ i h. absurd (omega arith))
put_back (suc n) f g a bytes same x =
    rw (low_byte, high_bytes) (put_back n f g' (a + 1) bytes same' x)
  where
    low_byte : (f (a % u64_mod) + 256 * le_value n f (a + 1)) % 256 ≡ f (a % u64_mod)
    low_byte = omega (arith, bytes (a % u64_mod))

    high_bytes : (f (a % u64_mod) + 256 * le_value n f (a + 1)) / 256 ≡ le_value n f (a + 1)
    high_bytes = omega (arith, bytes (a % u64_mod))

    g' : Bytes
    g' = update g (a % u64_mod) (f (a % u64_mod))

    beyond : (x : ℕ) → x ≢ a % u64_mod → Outside n (a + 1) x → Outside (suc n) a x
    beyond x ne out zero h e = ne (omega arith)
    beyond x ne out (suc i) h e = out i (omega arith) (omega arith)

    same' : (x : ℕ) → Outside n (a + 1) x → g' x ≡ f x
    same' x out = elim (Bool-cases (a % u64_mod == x)) [
      | inl e ↦ unfold update in ground (arith, ap f ((==_iff (a % u64_mod) x).0 e))
      | inr e ↦ unfold update in ground (arith, same x (beyond x (λ h. ground arith) out))
    ]

-- Putting a value and then the one that was there before changes nothing.
pub put_undo :
    (n v : ℕ) (f : Bytes) (a : ℕ) → IsBytes f → put n (le_value n f a) (put n v f a) a ≡ f
put_undo n v f a bytes = fun_ext (put_back n f (put n v f a) a bytes (put-Outside n v f a))

pub IsBytes-put : (n v : ℕ) (f : Bytes) (a : ℕ) → IsBytes f → IsBytes (put n v f a)
unfolding put
IsBytes-put zero v f a h = h
IsBytes-put (suc n) v f a h =
    IsBytes-put n (v / 256) (update f (a % u64_mod) (v % 256)) (a + 1) step
  where
    step : IsBytes (update f (a % u64_mod) (v % 256))
    step = unfold update in λ x. ground (arith, h x)
