-- ===== src/BTreeMap/Sorted.antt =====
-- The order of the entries of a `BTreeMap`, and what `range` finds by it.
use mathlib.Core.Option
use riscv_trace_debugger.Prelude.{
  ℕ, Option, none, some, [], ◌∷◌, ◌==◌, ltb, false, ◌≡◌, refl, arith, ◌<◌, ◌≤◌, get_elem?, subst,
  Bool-cases, inl, inr, ==_iff,
}
use riscv_trace_debugger.BTreeMap.{BTreeMap, get, range_from}

module _ {ℓ} {V : Type ℓ} where
  -- Every key is above `k`.
  abbrev pub IsAbove : ℕ → BTreeMap V → Type 0
  IsAbove k [] = Unit
  IsAbove k ((j, v) ∷ m) = (k < j) × IsAbove k m

  abbrev pub IsSorted : BTreeMap V → Type 0
  IsSorted [] = Unit
  IsSorted ((j, v) ∷ m) = IsAbove j m × IsSorted m

  -- Nothing is found at or below a key that all are above.
  pub get-IsAbove : (m : BTreeMap V) (i k : ℕ) → IsAbove i m → k ≤ i → get m k ≡ none
  unfolding get
  get-IsAbove [] i k h le = refl
  get-IsAbove ((j, v) ∷ m) i k h le =
      let lt = h.0 in let rest = get-IsAbove m i k h.1 le in ground arith

  -- What follows the entry of `k` has the next key: it is there, and there is none between.
  abbrev pub IsNext : BTreeMap V → ℕ → Option (ℕ × V) → Type ℓ
  IsNext m k none = (i : ℕ) → k < i → get m i ≡ none
  IsNext m k (some (j, v)) =
      (k < j) × (get m j ≡ some v) × ((i : ℕ) → k < i → i < j → get m i ≡ none)

  IsNext-cons :
      (m : BTreeMap V) (j : ℕ) (v : V) (k : ℕ) (o : Option (ℕ × V))
      → j ≤ k
      → IsNext m k o
      → IsNext ((j, v) ∷ m) k o
  unfolding get
  IsNext-cons m j v k none le h = λ i lt. let rest = h i lt in ground arith
  IsNext-cons m j v k (some (i, w)) le h =
      let lt = h.0 in
      let found = h.1 in
      (lt, ground arith, λ l above below. let rest = h.2 l above below in ground arith)

  IsNext-first : (m : BTreeMap V) (k : ℕ) → IsAbove k m → IsSorted m → IsNext m k (get_elem? m 0)
  unfolding get
  IsNext-first [] k above sorted = λ i lt. refl
  IsNext-first ((j, v) ∷ m) k above sorted = (
    above.0,
    ground arith,
    λ i lt below. let rest = get-IsAbove m j i sorted.0 (omega (arith, below)) in ground arith,
  )

  range_from-IsAbove : (m : BTreeMap V) (k : ℕ) → IsAbove k m → range_from m k ≡ m
  unfolding range_from
  range_from-IsAbove [] k h = refl
  range_from-IsAbove ((j, v) ∷ m) k h =
      let lt = h.0 in
      let after : ltb j k ≡ false = ground arith in rw (after, range_from-IsAbove m k h.1) refl

  pub range_from-IsNext :
      (m : BTreeMap V) (k : ℕ) (v : V)
      → IsSorted m
      → get m k ≡ some v
      → IsNext m k (get_elem? (range_from m k) 1)
  unfolding get range_from
  range_from-IsNext [] k v sorted found = λ i lt. refl
  range_from-IsNext ((j, w) ∷ m) k v sorted found = elim (Bool-cases (ltb j k)) [
    | inl before ↦ rw before (
        IsNext-cons m j w k (get_elem? (range_from m k) 1) (ground arith)
          (range_from-IsNext m k v sorted.1 (ground arith)))
    | inr at ↦ elim (Bool-cases (j == k)) [
      | inl e ↦
          let same : j ≡ k = (==_iff j k).0 e in
          let above : IsAbove k m = subst (λ i. IsAbove i m) same sorted.0 in
          rw (at, range_from-IsAbove m k above)
            (IsNext-cons m j w k (get_elem? m 0) (ground arith) (IsNext-first m k above sorted.1))
      | inr ne ↦
          let rest = get-IsAbove m j k sorted.0 (ground arith) in
          let none_there : none ≡ some v = ground arith in absurd (Option.none-ne-some v none_there)
    ]
  ]
