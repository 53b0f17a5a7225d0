-- ===== src/Fallible.antt =====
-- `?` on results, and what is known of a value that was returned.
use riscv_trace_debugger.Prelude.{
  Bool, true, false, Option, none, some, Result, ok, err, if◌then◌else◌, ◌≡◌, refl, subst, ◌⊎◌, inl,
  inr,
}

module _ {ℓ} {E : Type ℓ} where
  infixl 5 ◌>>=◌ ◌>>◌
  abbrev pub ◌>>=◌ {κ μ} : {A : Type κ} {B : Type μ} → Result E A → (A → Result E B) → Result E B
  ok a >>= f = f a
  err e >>= f = err e

  abbrev pub ◌>>◌ {κ} : {B : Type κ} → Result E (Unit {0}) → Result E B → Result E B
  m >> k = m >>= λ _. k

  -- `ok_or`
  abbrev pub ok_or {κ} : {A : Type κ} → Option A → E → Result E A
  ok_or none e = err e
  ok_or (some a) e = ok a

  -- `if !test { return Err(e) }`
  abbrev pub guard : Bool → E → Result E (Unit {0})
  guard true e = ok tt
  guard false e = err e

  -- What is returned, if no error is, has the property.
  abbrev pub Ensures {κ} : {A : Type κ} → (A → Type 0) → Result E A → Type 0
  Ensures P (ok a) = P a
  Ensures P (err e) = Unit

  pub Ensures-bind {κ μ} :
      {A : Type κ} {B : Type μ} (P : A → Type 0) (Q : B → Type 0) (r : Result E A)
      (f : A → Result E B)
      → Ensures P r
      → ((a : A) → P a → Ensures Q (f a))
      → Ensures Q (r >>= f)
  Ensures-bind P Q (ok a) f h g = g a h
  Ensures-bind P Q (err e) f h g = tt

  pub Ensures-any {κ} : {A : Type κ} (r : Result E A) → Ensures (λ a. Unit) r
  Ensures-any (ok a) = tt
  Ensures-any (err e) = tt

  pub Ensures-imp {κ} :
      {A : Type κ} (P Q : A → Type 0) (r : Result E A)
      → ((a : A) → P a → Q a)
      → Ensures P r
      → Ensures Q r
  Ensures-imp P Q (ok a) f h = f a h
  Ensures-imp P Q (err e) f h = tt

  pub Ensures-guard {κ} :
      {B : Type κ} (Q : B → Type 0) (b : Bool) (e : E) (k : Result E B)
      → Ensures Q k
      → Ensures Q (guard b e >> k)
  Ensures-guard Q true e k h = h
  Ensures-guard Q false e k h = tt

  pub Ensures-guard_eq {κ} :
      {B : Type κ} (Q : B → Type 0) (b : Bool) (e : E) (k : Result E B)
      → (b ≡ true → Ensures Q k)
      → Ensures Q (guard b e >> k)
  Ensures-guard_eq Q true e k h = h refl
  Ensures-guard_eq Q false e k h = tt

  pub Ensures-if {κ} :
      {A : Type κ} (P : A → Type 0) (b : Bool) (x y : Result E A)
      → Ensures P x
      → Ensures P y
      → Ensures P (if b then x else y)
  Ensures-if P true x y hx hy = hx
  Ensures-if P false x y hx hy = hy

  pub Ensures-ok_or {κ} :
      {A : Type κ} (P : A → Type 0) (o : Option A) (e : E)
      → ((a : A) → o ≡ some a → P a)
      → Ensures P (ok_or o e)
  Ensures-ok_or P none e h = tt
  Ensures-ok_or P (some a) e h = h a refl

  pub Ensures-eq_ok {κ} :
      {A : Type κ} (P : A → Type 0) (r : Result E A) (a : A) → Ensures P r → r ≡ ok a → P a
  Ensures-eq_ok P r a h e = subst (Ensures P) e h

pub Result-cases {ℓ κ} :
    {E : Type ℓ} {A : Type κ} (r : Result E A) → ((a : A) × (r ≡ ok a)) ⊎ ((e : E) × (r ≡ err e))
Result-cases (ok a) = inl (a, refl)
Result-cases (err e) = inr (e, refl)
