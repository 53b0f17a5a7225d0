-- ===== src/Prelude/Subsequences.antt =====
-- Lists that leave out some items of another, and the last item of a list.
use mathlib.Core.Path.{◌≡◌, refl, ap}
use mathlib.Core.Option.{Option, none, some}
use mathlib.Core.List.{List, [], ◌∷◌, ◌++◌}

module _ {ℓ} {A : Type ℓ} where
  pub data Subsequence : List A → List A → Type ℓ where
    empty : Subsequence [] []
    skip : {xs ys : List A} (y : A) → Subsequence xs ys → Subsequence xs (y ∷ ys)
    keep : {xs ys : List A} (y : A) → Subsequence xs ys → Subsequence (y ∷ xs) (y ∷ ys)

  pub skip_last : {xs ys : List A} (y : A) → Subsequence xs ys → Subsequence xs (ys ++ y ∷ [])
  skip_last y empty = skip y empty
  skip_last y (skip z h) = skip z (skip_last y h)
  skip_last y (keep z h) = keep z (skip_last y h)

  pub keep_last :
      {xs ys : List A} (y : A) → Subsequence xs ys → Subsequence (xs ++ y ∷ []) (ys ++ y ∷ [])
  keep_last y empty = keep y empty
  keep_last y (skip z h) = skip z (keep_last y h)
  keep_last y (keep z h) = keep z (keep_last y h)

  pub Subsequence-append :
      {xs ys : List A} (zs : List A) → Subsequence xs ys → Subsequence xs (ys ++ zs)
  Subsequence-append [] empty = empty
  Subsequence-append (z ∷ zs) empty = skip z (Subsequence-append zs empty)
  Subsequence-append zs (skip y h) = skip y (Subsequence-append zs h)
  Subsequence-append zs (keep y h) = keep y (Subsequence-append zs h)

  abbrev last_of : A → List A → A
  last_of x [] = x
  last_of x (y ∷ ys) = last_of y ys

  abbrev pub last : List A → Option A
  last [] = none
  last (x ∷ xs) = some (last_of x xs)

  last_of-append : (x y : A) (xs : List A) → last_of x (xs ++ y ∷ []) ≡ y
  last_of-append x y [] = refl
  last_of-append x y (z ∷ xs) = last_of-append z y xs

  pub last-append : (xs : List A) (y : A) → last (xs ++ y ∷ []) ≡ some y
  last-append [] y = refl
  last-append (x ∷ xs) y = ap some (last_of-append x y xs)
