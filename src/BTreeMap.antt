-- ===== src/BTreeMap.antt =====
-- `std::collections::BTreeMap` with number keys: its entries in the order of their keys.
pub mod Sorted
use riscv_trace_debugger.Prelude.{
  ℕ, Option, none, some, List, [], ◌∷◌, ◌==◌, ltb, if◌then◌else◌, ◌≡◌, refl, arith,
}

abbrev pub BTreeMap {ℓ} : Type ℓ → Type ℓ
BTreeMap V = List (ℕ × V)

module _ {ℓ} {V : Type ℓ} where
  unfoldable pub get : BTreeMap V → ℕ → Option V
  get [] k = none
  get ((j, v) ∷ m) k = if j == k then some v else get m k

  unfoldable pub insert : BTreeMap V → ℕ → V → BTreeMap V
  insert [] k v = (k, v) ∷ []
  insert ((j, w) ∷ m) k v =
      if j == k then (k, v) ∷ m else if ltb k j then (k, v) ∷ (j, w) ∷ m else (j, w) ∷ insert m k v

  -- `range(k..)`
  unfoldable pub range_from : BTreeMap V → ℕ → BTreeMap V
  range_from [] k = []
  range_from ((j, v) ∷ m) k = if ltb j k then range_from m k else (j, v) ∷ range_from m k

  pub get-insert :
      (m : BTreeMap V) (k : ℕ) (v : V) (j : ℕ)
      → get (insert m k v) j ≡ (if k == j then some v else get m j)
  unfolding get insert
  get-insert [] k v j = refl
  get-insert ((i, w) ∷ m) k v j = ground (arith, get-insert m k v j)
