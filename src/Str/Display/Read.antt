-- ===== src/Str/Display/Read.antt =====
-- A number that was displayed is read back.
use native.Mathlib.Nat.{mod-lt, div-add-mod', div-lt_iff_lt-mul, div-le_self, pow-suc}
use mathlib.Core.List.{cons-ne-nil}
use riscv_trace_debugger.Str.Bounds.{two_pow_pos}
use riscv_trace_debugger.Prelude.{
  ℕ, zero, suc, ◌+◌, ◌-◌, ◌*◌, ◌/◌, ◌%◌, ◌^◌, ◌≤◌, ◌<◌, ◌≡◌, ◌≢◌, refl, ap, ◌∙◌, true, some, [],
  ◌∷◌, ◌++◌, ltb, replicate, length, arith, Bool-cases, inl, inr,
}
use riscv_trace_debugger.Trace.{Text}
use riscv_trace_debugger.Str.{to_digit, scan, from_str_radix}
use riscv_trace_debugger.Str.Display.{digit, digits}

-- A character between `0` and `z`: no white space and no `+`.
abbrev pub IsPlain : ℕ → Type 0
IsPlain c = (b'0' ≤ c) × (c ≤ b'z')

abbrev pub AllPlain : Text → Type 0
AllPlain [] = Unit
AllPlain (c ∷ s) = IsPlain c × AllPlain s

pub AllPlain-append : (s t : Text) → AllPlain s → AllPlain t → AllPlain (s ++ t)
AllPlain-append [] t hs ht = ht
AllPlain-append (c ∷ s) t hs ht = (hs.0, AllPlain-append s t hs.1 ht)

to_digit-digit : (radix d : ℕ) → d < radix → radix ≤ 36 → to_digit radix (digit d) ≡ some d
unfolding to_digit
to_digit-digit radix d lt le = ground arith

module _ (radix : ℕ) (more_than_one : 1 < radix) (has_letters : radix ≤ 36) where
  scan-digit :
      (bits n d : ℕ) (s : Text)
      → d < radix
      → n * radix + d < 2 ^ bits
      → scan radix bits n (digit d ∷ s) ≡ scan radix bits (n * radix + d) s
  unfolding scan
  scan-digit bits n d s lt fits =
      let below : ltb (n * radix + d) (2 ^ bits) ≡ true = ground arith in
      rw (to_digit-digit radix d lt has_letters, below, scan) refl

  tenth_lt : (f n : ℕ) → n < 2 ^ suc f → n / radix < 2 ^ f
  tenth_lt f n h = (div-lt_iff_lt-mul (omega arith)).1 (grind (arith, pow-suc 2 f))

  pub scan-digits :
      (f n bits : ℕ) (out : Text)
      → n < 2 ^ f
      → n < 2 ^ bits
      → scan radix bits 0 (digits radix f n out) ≡ scan radix bits n out
  unfolding digits
  scan-digits zero n bits out h fits = ap (λ k. scan radix bits k out) (omega arith)
  scan-digits (suc f) n bits out h fits = elim (Bool-cases (ltb n radix)) [
    | inl last ↦
        let lt : n < radix = ground arith in
        rw (last, digits)
          (scan-digit bits 0 n out lt (omega (arith, fits))
            ∙ ap (λ k. scan radix bits k out) (omega arith))
    | inr more ↦
        let d = n % radix in
        let rest = n / radix in
        rw (more, digits)
          (scan-digits f rest bits (digit d ∷ out) (tenth_lt f n h)
              (omega (arith, div-le_self n radix))
            ∙ scan-digit bits rest d out (mod-lt n (omega arith))
                (omega (arith, div-add-mod' n radix))
            ∙ ap (λ k. scan radix bits k out) (div-add-mod' n radix))
  ]

  digit-IsPlain : (d : ℕ) → d < radix → IsPlain (digit d)
  digit-IsPlain d lt = ground arith

  pub digits-AllPlain : (f n : ℕ) (out : Text) → AllPlain out → AllPlain (digits radix f n out)
  unfolding digits
  digits-AllPlain zero n out h = h
  digits-AllPlain (suc f) n out h = elim (Bool-cases (ltb n radix)) [
    | inl last ↦ rw (last, digits) (digit-IsPlain n (ground arith), h)
    | inr more ↦
        rw (more, digits)
          (digits-AllPlain f (n / radix) (digit (n % radix) ∷ out)
            (digit-IsPlain (n % radix) (mod-lt n (omega arith)), h))
  ]

  digits-ne-nil : (f n : ℕ) (out : Text) → out ≢ [] → digits radix f n out ≢ []
  unfolding digits
  digits-ne-nil zero n out h = h
  digits-ne-nil (suc f) n out h = elim (Bool-cases (ltb n radix)) [
    | inl last ↦ rw (last, digits) (cons-ne-nil (digit n) out)
    | inr more ↦
        rw (more, digits)
          (digits-ne-nil f (n / radix) (digit (n % radix) ∷ out)
            (cons-ne-nil (digit (n % radix)) out))
  ]

  pub digits-suc-ne-nil : (f n : ℕ) → digits radix (suc f) n [] ≢ []
  unfolding digits
  digits-suc-ne-nil f n = elim (Bool-cases (ltb n radix)) [
    | inl last ↦ rw (last, digits) (cons-ne-nil (digit n) [])
    | inr more ↦
        rw (more, digits)
          (digits-ne-nil f (n / radix) (digit (n % radix) ∷ [])
            (cons-ne-nil (digit (n % radix)) []))
  ]

  scan-zeros :
      (bits k : ℕ) (s : Text) → scan radix bits 0 (replicate k b'0' ++ s) ≡ scan radix bits 0 s
  scan-zeros bits zero s = refl
  scan-zeros bits (suc k) s =
      scan-digit bits 0 0 (replicate k b'0' ++ s) (omega arith) (omega (arith, two_pow_pos bits))
      ∙ ap (λ n. scan radix bits n (replicate k b'0' ++ s)) (omega arith)
      ∙ scan-zeros bits k s

from_str_radix-scan :
    (radix bits : ℕ) (s : Text)
    → AllPlain s
    → s ≢ []
    → from_str_radix radix bits s ≡ scan radix bits 0 s
unfolding from_str_radix
from_str_radix-scan radix bits [] h ne = absurd (ne refl)
from_str_radix-scan radix bits (c ∷ []) h ne = refl
from_str_radix-scan radix bits (c ∷ d ∷ s) h ne = let low = h.0.0 in ground arith

-- A number in at least `wide` digits, as traces have it.
unfoldable pub printed : ℕ → ℕ → ℕ → ℕ → Text
printed radix wide f n = let s = digits radix f n [] in replicate (wide - length s) b'0' ++ s

zeros-AllPlain : (k : ℕ) (s : Text) → AllPlain s → AllPlain (replicate k b'0' ++ s)
zeros-AllPlain zero s h = h
zeros-AllPlain (suc k) s h = (omega arith, zeros-AllPlain k s h)

append-ne-nil : (s t : Text) → t ≢ [] → s ++ t ≢ []
append-ne-nil [] t h = h
append-ne-nil (c ∷ s) t h = cons-ne-nil c (s ++ t)

module _ (radix : ℕ) (more_than_one : 1 < radix) (has_letters : radix ≤ 36) where
  pub printed-AllPlain : (wide f n : ℕ) → AllPlain (printed radix wide f n)
  unfolding printed
  printed-AllPlain wide f n =
      zeros-AllPlain (wide - length (digits radix f n [])) (digits radix f n [])
        (digits-AllPlain radix more_than_one has_letters f n [] tt)

  printed-ne-nil : (wide f n : ℕ) → printed radix wide (suc f) n ≢ []
  unfolding printed
  printed-ne-nil wide f n =
      append-ne-nil _ (digits radix (suc f) n [])
        (digits-suc-ne-nil radix more_than_one has_letters f n)

  -- A number of `bits` bits that was printed is read back, leading zeros or not.
  pub from_str_radix-printed :
      (wide bits n : ℕ)
      → 0 < bits
      → n < 2 ^ bits
      → from_str_radix radix bits (printed radix wide bits n) ≡ some n
  unfolding printed scan
  from_str_radix-printed wide zero n some_bits fits = absurd (omega (arith, some_bits))
  from_str_radix-printed wide (suc bits) n some_bits fits =
      from_str_radix-scan radix (suc bits) (printed radix wide (suc bits) n)
        (printed-AllPlain wide (suc bits) n) (printed-ne-nil wide bits n)
      ∙ scan-zeros radix more_than_one has_letters (suc bits)
          (wide - length (digits radix (suc bits) n [])) (digits radix (suc bits) n [])
      ∙ scan-digits radix more_than_one has_letters (suc bits) n (suc bits) [] fits fits
      ∙ refl
