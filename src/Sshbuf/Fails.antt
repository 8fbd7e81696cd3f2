-- ===== src/Sshbuf/Fails.antt =====
-- Steps that fail on the input that follows what they read.
use rust_osshkeys.Prelude.{
  ◌≡◌, ◌∙◌, Bytes, [], ◌++◌, append_assoc, append-nil, refl, Outcome, err, Step, ◌>>=◌, lift,
}
use rust_osshkeys.Sshbuf.Reader.{Reader, Reads}

module _ {E R A : Type 0} (rd : Reader R) where
  -- On input that starts with `b` the step fails with `e`.
  pub record Fails (m : Step E R A) (b : Bytes) (e : E) : Type 0 where
    pub at : (r : R) (rest : Bytes) → rd.unread r ≡ b ++ rest → m r ≡ err e

module _ {E R A B : Type 0} {rd : Reader R} where
  pub Fails-bind :
      (m : Step E R A) (f : A → Step E R B) {b c : Bytes} {a : A} {e : E}
      → Reads rd m b a
      → Fails rd (f a) c e
      → Fails rd (m >>= f) (b ++ c) e
  unfolding ◌>>=◌
  Fails-bind m f {b} {c} p q = record {
    at = λ r rest h.
        let (s, e₁, u) = p.at r (c ++ rest) (h ∙ append_assoc b c rest) in rw e₁ (q.at s rest u);
  }

  -- The last input that is read before the failure.
  pub Fails-last :
      (m : Step E R A) (f : A → Step E R B) {b : Bytes} {a : A} {e : E}
      → Reads rd m b a
      → Fails rd (f a) [] e
      → Fails rd (m >>= f) b e
  Fails-last m f {b} p q = rw append-nil at (Fails-bind m f p q)

  pub Fails-lift_bind :
      (r : Outcome E A) (f : A → Step E R B) {e : E} → r ≡ err e → Fails rd (lift r >>= f) [] e
  unfolding ◌>>=◌ lift
  Fails-lift_bind r f h = record { at = λ s rest k. rw h refl }
