-- ===== src/Prelude/Results.antt =====
-- What a Rust call can do: return `Ok`, return `Err`, or panic.
use mathlib.Core.Path.{◌≡◌, refl}

pub data Outcome {ℓ} (E A : Type ℓ) : Type ℓ where
  ok : A → Outcome E A
  err : E → Outcome E A
  panic : Outcome E A

module _ {ℓ} {E A B : Type ℓ} where
  -- The `?` operator on calls of one error type.
  abbrev pub and_then : Outcome E A → (A → Outcome E B) → Outcome E B
  and_then (ok a) f = f a
  and_then (err e) f = err e
  and_then panic f = panic

  pub and_then-eq-ok :
      (m : Outcome E A) (f : A → Outcome E B) {b : B}
      → and_then m f ≡ ok b
      → (a : A) × (m ≡ ok a) × (f a ≡ ok b)
  and_then-eq-ok (ok a) f h = (a, refl, h)
  and_then-eq-ok (err e) f h = cc
  and_then-eq-ok panic f h = cc

module _ {ℓ} {E F A : Type ℓ} where
  -- `map_err`, also the conversion that `?` makes through `From`.
  abbrev pub map_err : (E → F) → Outcome E A → Outcome F A
  map_err c (ok a) = ok a
  map_err c (err e) = err (c e)
  map_err c panic = panic

  pub map_err-eq-ok : (c : E → F) (m : Outcome E A) {a : A} → map_err c m ≡ ok a → m ≡ ok a
  map_err-eq-ok c (ok a) h = cc
  map_err-eq-ok c (err e) h = cc
  map_err-eq-ok c panic h = cc
