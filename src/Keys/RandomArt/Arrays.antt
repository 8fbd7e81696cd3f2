-- ===== src/Keys/RandomArt/Arrays.antt =====
-- Arrays that are read and written at an index.
use rust_osshkeys.Prelude.{
  ℕ, zero, suc, ◌<◌, ◌≡◌, refl, ap, arith, List, [], ◌∷◌, All, length, ok, panic,
}
use rust_osshkeys.Error.{OsshResult}

module _ {A : Type 0} where
  -- `a[i]`.
  unfoldable pub at : List A → ℕ → OsshResult A
  at [] i = panic
  at (a ∷ xs) zero = ok a
  at (a ∷ xs) (suc i) = at xs i

  -- `a[i] = v`, where `i` is in bounds.
  unfoldable pub set : List A → ℕ → A → List A
  set [] i v = []
  set (a ∷ xs) zero v = v ∷ xs
  set (a ∷ xs) (suc i) v = a ∷ set xs i v

  pub at_lem :
      (P : A → Type 0) (xs : List A) (i : ℕ)
      → All P xs
      → i < length xs
      → (a : A) × (at xs i ≡ ok a) × P a
  unfolding at
  at_lem P [] i h k = absurd (omega arith)
  at_lem P (a ∷ xs) zero (ha, h) k = (a, refl, ha)
  at_lem P (a ∷ xs) (suc i) (ha, h) k = at_lem P xs i h (omega arith)

  pub length-set : (xs : List A) (i : ℕ) (v : A) → length (set xs i v) ≡ length xs
  unfolding set
  length-set [] i v = refl
  length-set (a ∷ xs) zero v = refl
  length-set (a ∷ xs) (suc i) v = ap suc (length-set xs i v)

  pub All-set : (P : A → Type 0) (xs : List A) (i : ℕ) (v : A) → All P xs → P v → All P (set xs i v)
  unfolding set
  All-set P [] i v h hv = tt
  All-set P (a ∷ xs) zero v (ha, h) hv = (hv, h)
  All-set P (a ∷ xs) (suc i) v (ha, h) hv = (ha, All-set P xs i v h hv)
