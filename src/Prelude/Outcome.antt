-- ===== src/Prelude/Outcome.antt =====
-- Rust's `Result`, with a third case for a panic (`unwrap` of an error, a slice out of range).
use mathlib.Core.Logic.{◌⊎◌, inl, inr}
use mathlib.Core.Path.{◌≡◌, refl}
use mathlib.Core.Option.{Option, none, some}

pub data Result {ℓ κ} (E : Type κ) (A : Type ℓ) : Type (ℓ ⊔ κ) where
  ok : A → Result E A
  err : E → Result E A
  panicked : Result E A

infixl 5 ◌>>=◌
abbrev pub ◌>>=◌ {ℓ κ μ} :
    {E : Type μ} {A : Type ℓ} {B : Type κ} → Result E A → (A → Result E B) → Result E B
ok a >>= f = f a
err e >>= f = err e
panicked >>= f = panicked

module _ {ℓ κ μ} {E : Type κ} {A : Type ℓ} {F : Type μ} where
  -- `Result::unwrap`, inside a function that can itself fail with another error.
  abbrev pub unwrap : Result E A → Result F A
  unwrap (ok a) = ok a
  unwrap (err e) = panicked
  unwrap panicked = panicked

  -- `Result::map_err`, and the conversion that `?` makes.
  abbrev pub map_err : (E → F) → Result E A → Result F A
  map_err f (ok a) = ok a
  map_err f (err e) = err (f e)
  map_err f panicked = panicked

module _ {ℓ κ} {E : Type κ} {A : Type ℓ} where
  abbrev pub ok_or : Option A → E → Result E A
  ok_or none e = err e
  ok_or (some a) e = ok a

module _ {ℓ κ μ} {E : Type μ} {A : Type ℓ} {B : Type κ} (next : A → Result E B) (last : B) where
  -- The first step of a chain that succeeds did so, with a value from which the rest succeeds.
  pub >>=-succeeds :
      (first : Result E A)
      → (first >>= next) ≡ ok last
      → (a : A) × (first ≡ ok a) × (next a ≡ ok last)
  >>=-succeeds panicked chain = cc
  >>=-succeeds (err e) chain = cc
  >>=-succeeds (ok a) chain = (a, refl, chain)

-- To split on a computed result and keep the equation.
pub Result-cases {ℓ κ} :
    {E : Type κ} {A : Type ℓ} (r : Result E A)
    → ((a : A) × (r ≡ ok a)) ⊎ (((e : E) × (r ≡ err e)) ⊎ (r ≡ panicked))
Result-cases (ok a) = inl (a, refl)
Result-cases (err e) = inr (inl (e, refl))
Result-cases panicked = inr (inr refl)

-- What the operating system or the transport answers to a call: a value or an error, never a panic.
pub data Answer {ℓ κ} (E : Type κ) (A : Type ℓ) : Type (ℓ ⊔ κ) where
  success : A → Answer E A
  failure : E → Answer E A

abbrev pub answered {ℓ κ} : {E : Type κ} {A : Type ℓ} → Answer E A → Result E A
answered (success a) = ok a
answered (failure e) = err e

pub Answer-cases {ℓ κ} :
    {E : Type κ} {A : Type ℓ} (r : Answer E A)
    → ((a : A) × (r ≡ success a)) ⊎ ((e : E) × (r ≡ failure e))
Answer-cases (success a) = inl (a, refl)
Answer-cases (failure e) = inr (e, refl)
