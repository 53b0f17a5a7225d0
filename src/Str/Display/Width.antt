-- ===== src/Str/Display/Width.antt =====
-- How long a printed number is, and what does not occur in it; for the functions that look for a
-- separator or count bytes.
use native.Mathlib.Nat.{div-lt_iff_lt-mul, mod-lt, pow-suc}
use riscv_trace_debugger.Prelude.{
  ℕ, zero, suc, ◌+◌, ◌-◌, ◌/◌, ◌%◌, ◌^◌, ◌≤◌, ◌<◌, ◌≡◌, refl, ap, ◌∙◌, Bool, true, false, none,
  some, [], ◌∷◌, ◌++◌, ltb, ◌==◌, length, length-append, length-replicate, replicate, arith,
  Bool-cases, inl, inr, ==_refl,
}
use riscv_trace_debugger.Trace.{Text}
use riscv_trace_debugger.Str.{codes, starts_with, strip_prefix, len, trim_start_matches, split_once}
use riscv_trace_debugger.Str.Display.{digit, digits}
use riscv_trace_debugger.Str.Display.Read.{AllPlain, printed}
use riscv_trace_debugger.Str.Split.{NoSep}

module _ (radix : ℕ) (positive : 0 < radix) (sep : ℕ → Bool)
    (other : (d : ℕ) → d < radix → sep (digit d) ≡ false) where
  digits-NoSep : (f n : ℕ) (out : Text) → NoSep sep out → NoSep sep (digits radix f n out)
  unfolding digits
  digits-NoSep zero n out h = h
  digits-NoSep (suc f) n out h = elim (Bool-cases (ltb n radix)) [
    | inl last ↦ rw (last, digits) (other n (ground arith), h)
    | inr more ↦
        rw (more, digits)
          (digits-NoSep f (n / radix) (digit (n % radix) ∷ out)
            (other (n % radix) (mod-lt n positive), h))
  ]

  zeros-NoSep : (k : ℕ) (s : Text) → NoSep sep s → NoSep sep (replicate k b'0' ++ s)
  zeros-NoSep zero s h = h
  zeros-NoSep (suc k) s h = (other 0 positive, zeros-NoSep k s h)

  pub printed-NoSep : (wide f n : ℕ) → NoSep sep (printed radix wide f n)
  unfolding printed
  printed-NoSep wide f n =
      zeros-NoSep (wide - length (digits radix f n [])) (digits radix f n [])
        (digits-NoSep f n [] tt)

-- No line begins with the `T` of a header that begins with a number.
number_no_T : (n : ℕ) → NoSep (λ c. b'T' == c) (printed 10 1 64 n)
number_no_T n = printed-NoSep 10 (omega arith) (λ c. b'T' == c) (λ d lt. ground arith) 1 64 n

starts_with-NoSep :
    (p c : ℕ) (ps s rest : Text)
    → (p == c) ≡ false
    → NoSep (λ c. p == c) s
    → starts_with (p ∷ ps) (s ++ c ∷ rest) ≡ false
unfolding starts_with strip_prefix
starts_with-NoSep p c ps [] rest ne h = rw (ne, starts_with, strip_prefix) refl
starts_with-NoSep p c ps (d ∷ s) rest ne h = rw (h.0, starts_with, strip_prefix) refl

-- A line whose first column is a number is no header.
pub starts_with-printed :
    (n : ℕ) (rest : Text) → starts_with (codes "Time") (printed 10 1 64 n ++ 9 ∷ rest) ≡ false
starts_with-printed n rest =
    starts_with-NoSep b'T' 9 (codes "ime") (printed 10 1 64 n) rest refl (number_no_T n)

sixteenth_lt : (n k : ℕ) → n < 16 ^ suc (suc k) → n / 16 < 16 ^ suc k
sixteenth_lt n k h = (div-lt_iff_lt-mul (omega arith)).1 (grind (arith, pow-suc 16 (suc k)))

length-digits_le :
    (f n k : ℕ) (out : Text) → n < 16 ^ suc k → length (digits 16 f n out) ≤ suc k + length out
unfolding digits
length-digits_le zero n k out h = omega arith
length-digits_le (suc f) n zero out h =
    let last : ltb n 16 ≡ true = ground arith in rw (last, digits) (omega arith)
length-digits_le (suc f) n (suc k) out h = elim (Bool-cases (ltb n 16)) [
  | inl last ↦ rw (last, digits) (omega arith)
  | inr more ↦
      let less : n / 16 < 16 ^ suc k = sixteenth_lt n k h in
      let ih = length-digits_le f (n / 16) k (digit (n % 16) ∷ out) less in
      rw (more, digits) (omega (arith, ih))
]

-- As many digits as were asked for, if they are enough.
pub length-printed :
    (wide f n : ℕ) → n < 16 ^ suc wide → length (printed 16 (suc wide) f n) ≡ suc wide
unfolding printed
length-printed wide f n h =
    let s = digits 16 f n [] in
    length-append (replicate (suc wide - length s) b'0') s
    ∙ ap (λ k. k + length s) (length-replicate (suc wide - length s) b'0')
    ∙ omega (arith, length-digits_le f n wide [] h)

-- One byte for each character.
pub len-AllPlain : (s : Text) → AllPlain s → len s ≡ length s
unfolding len
len-AllPlain [] h = refl
len-AllPlain (c ∷ s) h =
    let high : c ≤ b'z' = h.0.1 in
    let one : ltb c 0x80 ≡ true = ground arith in rw (one, len) (omega (arith, len-AllPlain s h.1))

pub trim_start_matches-NoSep :
    (p : ℕ) (s : Text) → NoSep (λ c. c == p) s → trim_start_matches p s ≡ s
unfolding trim_start_matches
trim_start_matches-NoSep p [] h = refl
trim_start_matches-NoSep p (c ∷ s) h = rw (h.0, trim_start_matches) refl

pub trim_start_matches-replicate :
    (p k : ℕ) (s : Text) → trim_start_matches p (replicate k p ++ s) ≡ trim_start_matches p s
unfolding trim_start_matches
trim_start_matches-replicate p zero s = refl
trim_start_matches-replicate p (suc k) s =
    rw (==_refl p, trim_start_matches) (trim_start_matches-replicate p k s)

pub split_once-NoSep : (p : ℕ) (s : Text) → NoSep (λ c. c == p) s → split_once p s ≡ none
unfolding split_once
split_once-NoSep p [] h = refl
split_once-NoSep p (c ∷ s) h = rw (h.0, split_once-NoSep p s h.1, split_once) refl

pub split_once-append :
    (p : ℕ) (s t : Text) → NoSep (λ c. c == p) s → split_once p (s ++ p ∷ t) ≡ some (s, t)
unfolding split_once
split_once-append p [] t h = rw (==_refl p, split_once) refl
split_once-append p (c ∷ s) t h = rw (h.0, split_once-append p s t h.1, split_once) refl
