-- ===== src/Prelude/Monad.antt =====
-- Fallible steps on a state: a reader that is consumed or a buffer that is written. After an error
-- or a panic no caller looks at the state again, so it is dropped.
use rust_osshkeys.Prelude.Results.{Outcome, ok, and_then, map_err}

abbrev pub Step {ℓ} : Type ℓ → Type ℓ → Type ℓ → Type ℓ
Step E S A = S → Outcome E (A × S)

module _ {ℓ} {E S A B : Type ℓ} where
  infixl 5 ◌>>=◌ ◌>>◌
  unfoldable pub ◌>>=◌ : Step E S A → (A → Step E S B) → Step E S B
  ◌>>=◌ m f s = and_then (m s) (λ p. f p.0 p.1)

  unfoldable pub ◌>>◌ : Step E S A → Step E S B → Step E S B
  unfolding ◌>>=◌
  m >> k = m >>= λ _. k

module _ {ℓ} {E S A : Type ℓ} where
  unfoldable pub pure : A → Step E S A
  pure a s = ok (a, s)

  -- A call that does not touch the state.
  unfoldable pub lift : Outcome E A → Step E S A
  lift r s = and_then r (λ a. ok (a, s))

module _ {ℓ} {E F S A : Type ℓ} where
  -- `?` on a step with another error type.
  unfoldable pub convert : (E → F) → Step E S A → Step F S A
  convert c m s = map_err c (m s)
