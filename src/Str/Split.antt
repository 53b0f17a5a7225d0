-- ===== src/Str/Split.antt =====
-- What was joined is split into its parts again.
use riscv_trace_debugger.Prelude.{
  ℕ, ◌≡◌, ◌≢◌, refl, ap, ◌∙◌, Bool, true, false, List, [], ◌∷◌, ◌++◌, ◌==◌, arith,
}
use riscv_trace_debugger.Trace.{Text}
use riscv_trace_debugger.Str.{
  is_whitespace, trim_start, trim_end, trim, split_by, is_ascii_whitespace, without_empty,
  split_ascii_whitespace,
}
use riscv_trace_debugger.Str.Display.Read.{IsPlain, AllPlain}

-- The parts with a separator between them.
abbrev pub joined : ℕ → List Text → Text
joined c [] = []
joined c (part ∷ []) = part
joined c (part ∷ next ∷ parts) = part ++ c ∷ joined c (next ∷ parts)

abbrev pub NoSep : (ℕ → Bool) → Text → Type 0
NoSep sep [] = Unit
NoSep sep (c ∷ s) = (sep c ≡ false) × NoSep sep s

abbrev pub AllNoSep : (ℕ → Bool) → List Text → Type 0
AllNoSep sep [] = Unit
AllNoSep sep (part ∷ parts) = NoSep sep part × AllNoSep sep parts

module _ (sep : ℕ → Bool) where
  split_by-part :
      (a : Text) (c : ℕ) (b : Text)
      → NoSep sep a
      → sep c ≡ true
      → split_by sep (a ++ c ∷ b) ≡ a ∷ split_by sep b
  unfolding split_by
  split_by-part [] c b h at = rw (at, split_by) refl
  split_by-part (d ∷ a) c b h at = rw (h.0, split_by-part a c b h.1 at, split_by) refl

  split_by-last : (a : Text) → NoSep sep a → split_by sep a ≡ a ∷ []
  unfolding split_by
  split_by-last [] h = refl
  split_by-last (d ∷ a) h = rw (h.0, split_by-last a h.1, split_by) refl

  pub split_by-joined :
      (c : ℕ) (part : Text) (parts : List Text)
      → sep c ≡ true
      → NoSep sep part
      → AllNoSep sep parts
      → split_by sep (joined c (part ∷ parts)) ≡ part ∷ parts
  split_by-joined c part [] at h hs = split_by-last part h
  split_by-joined c part (next ∷ parts) at h hs =
      split_by-part part c (joined c (next ∷ parts)) h at
      ∙ ap (◌∷◌ part) (split_by-joined c next parts at hs.0 hs.1)

-- Each part has a character and no white space.
abbrev pub AllWords : List Text → Type 0
AllWords [] = Unit
AllWords (part ∷ parts) = (part ≢ []) × NoSep is_ascii_whitespace part × AllWords parts

pub AllPlain-NoSep : (s : Text) → AllPlain s → NoSep is_ascii_whitespace s
unfolding is_ascii_whitespace
AllPlain-NoSep [] h = tt
AllPlain-NoSep (c ∷ s) h =
    let low = h.0.0 in let high = h.0.1 in (ground arith, AllPlain-NoSep s h.1)

AllWords-AllNoSep : (parts : List Text) → AllWords parts → AllNoSep is_ascii_whitespace parts
AllWords-AllNoSep [] h = tt
AllWords-AllNoSep (part ∷ parts) h = (h.1, AllWords-AllNoSep parts h.2)

without_empty-AllWords : (parts : List Text) → AllWords parts → without_empty parts ≡ parts
unfolding without_empty
without_empty-AllWords [] h = refl
without_empty-AllWords ([] ∷ parts) h = absurd (h.0 refl)
without_empty-AllWords ((c ∷ s) ∷ parts) h = ap (◌∷◌ (c ∷ s)) (without_empty-AllWords parts h.2)

pub split_ascii_whitespace-joined :
    (parts : List Text) → AllWords parts → split_ascii_whitespace (joined 32 parts) ≡ parts
unfolding split_ascii_whitespace is_ascii_whitespace split_by without_empty
split_ascii_whitespace-joined [] h = refl
split_ascii_whitespace-joined (part ∷ parts) h =
    ap without_empty
      (split_by-joined is_ascii_whitespace 32 part parts refl h.1 (AllWords-AllNoSep parts h.2))
    ∙ without_empty-AllWords (part ∷ parts) h

is_whitespace-plain : (c : ℕ) → IsPlain c → is_whitespace c ≡ false
unfolding is_whitespace
is_whitespace-plain c h = let low = h.0 in let high = h.1 in ground arith

trim_end-AllPlain : (s : Text) → AllPlain s → trim_end s ≡ s
unfolding trim_end
trim_end-AllPlain [] h = refl
trim_end-AllPlain (c ∷ []) h = rw (is_whitespace-plain c h.0, trim_end) refl
trim_end-AllPlain (c ∷ d ∷ s) h = rw (trim_end-AllPlain (d ∷ s) h.1, trim_end) refl

pub trim-AllPlain : (s : Text) → AllPlain s → trim s ≡ s
unfolding trim trim_start
trim-AllPlain [] h = unfold trim_end in refl
trim-AllPlain (c ∷ s) h =
    rw (is_whitespace-plain c h.0, trim, trim_start) (trim_end-AllPlain (c ∷ s) h)

pub NoSep-append : (sep : ℕ → Bool) (s t : Text) → NoSep sep s → NoSep sep t → NoSep sep (s ++ t)
NoSep-append sep [] t hs ht = ht
NoSep-append sep (c ∷ s) t hs ht = (hs.0, NoSep-append sep s t hs.1 ht)

-- A part without white space has no tab either, and none comes from the spaces between such parts.
no_tab : (s : Text) → NoSep is_ascii_whitespace s → NoSep (λ c. c == 9) s
unfolding is_ascii_whitespace
no_tab [] h = tt
no_tab (c ∷ s) h = let first = h.0 in (ground arith, no_tab s h.1)

pub AllPlain-no_tab : (s : Text) → AllPlain s → NoSep (λ c. c == 9) s
AllPlain-no_tab s h = no_tab s (AllPlain-NoSep s h)

pub joined-no_tab : (parts : List Text) → AllWords parts → NoSep (λ c. c == 9) (joined 32 parts)
joined-no_tab [] h = tt
joined-no_tab (part ∷ []) h = no_tab part h.1
joined-no_tab (part ∷ next ∷ parts) h =
    NoSep-append (λ c. c == 9) part (32 ∷ joined 32 (next ∷ parts)) (no_tab part h.1)
      (refl, joined-no_tab (next ∷ parts) h.2)
