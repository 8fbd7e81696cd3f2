-- ===== src/Sshbuf/Rules.antt =====
-- How `Reads` and `Writes` go through a `do` block, one rule for each way to build a step.
use rust_osshkeys.Prelude.{
  ◌≡◌, refl, sym, ap, ◌∙◌, Bytes, [], ◌++◌, append-nil, append_assoc, Outcome, ok, Step, ◌>>=◌,
  ◌>>◌, pure, lift, convert,
}
use rust_osshkeys.Sshbuf.Reader.{Reader, Reads, Writer, Writes}

module _ {E R A B : Type 0} {rd : Reader R} where
  pub Reads-bind :
      (m : Step E R A) (f : A → Step E R B) {b c : Bytes} {a : A} {z : B}
      → Reads rd m b a
      → Reads rd (f a) c z
      → Reads rd (m >>= f) (b ++ c) z
  unfolding ◌>>=◌
  Reads-bind m f {b} {c} p q = record {
    at = λ r rest e.
        let (s, e₁, u) = p.at r (c ++ rest) (e ∙ append_assoc b c rest) in
        let (t, e₂, v) = q.at s rest u in (t, rw e₁ e₂, v);
  }

  -- The last step of a block that goes on with no more input.
  pub Reads-bind_end :
      (m : Step E R A) (f : A → Step E R B) {b : Bytes} {a : A} {z : B}
      → Reads rd m b a
      → Reads rd (f a) [] z
      → Reads rd (m >>= f) b z
  Reads-bind_end m f {b} p q = rw append-nil at (Reads-bind m f p q)

  pub Reads-lift_bind :
      (r : Outcome E A) (f : A → Step E R B) {c : Bytes} {a : A} {z : B}
      → r ≡ ok a
      → Reads rd (f a) c z
      → Reads rd (lift r >>= f) c z
  unfolding ◌>>=◌ lift
  Reads-lift_bind r f h q = rw h (record { at = q.at })

module _ {E R A : Type 0} {rd : Reader R} where
  pub Reads-pure : (a : A) → Reads rd (pure {E = E} a) [] a
  unfolding pure
  Reads-pure a = record { at = λ r rest e. (r, refl, e) }

  pub Reads-lift : (r : Outcome E A) {a : A} → r ≡ ok a → Reads rd (lift r) [] a
  unfolding lift
  Reads-lift r h = record { at = λ s rest e. (s, rw h, e) }

module _ {E F R A : Type 0} {rd : Reader R} where
  pub Reads-convert :
      (c : E → F) (m : Step E R A) {b : Bytes} {a : A} → Reads rd m b a → Reads rd (convert c m) b a
  unfolding convert
  Reads-convert c m p = record { at = λ r rest e. let (s, e₁, u) = p.at r rest e in (s, rw e₁, u) }

module _ {E W A B : Type 0} {wr : Writer W} where
  pub Writes-bind :
      (m : Step E W A) (f : A → Step E W B) {b c : Bytes} {a : A} {z : B}
      → Writes wr m b a
      → Writes wr (f a) c z
      → Writes wr (m >>= f) (b ++ c) z
  unfolding ◌>>=◌
  Writes-bind m f {b} {c} p q = record {
    at = λ w.
        let (s, e₁, u) = p.at w in
        let (t, e₂, v) = q.at s in
        (t, rw e₁ e₂, v ∙ ap (λ x. x ++ c) u ∙ append_assoc (wr.written w) b c);
  }

  pub Writes-seq :
      (m : Step E W A) (k : Step E W B) {b c : Bytes} {a : A} {z : B}
      → Writes wr m b a
      → Writes wr k c z
      → Writes wr (m >> k) (b ++ c) z
  unfolding ◌>>◌
  Writes-seq m k p q = Writes-bind m (λ _. k) p q

  pub Writes-seq_end :
      (m : Step E W A) (k : Step E W B) {b : Bytes} {a : A} {z : B}
      → Writes wr m b a
      → Writes wr k [] z
      → Writes wr (m >> k) b z
  Writes-seq_end m k p q = rw append-nil at (Writes-seq m k p q)

  pub Writes-lift_bind :
      (r : Outcome E A) (f : A → Step E W B) {c : Bytes} {a : A} {z : B}
      → r ≡ ok a
      → Writes wr (f a) c z
      → Writes wr (lift r >>= f) c z
  unfolding ◌>>=◌ lift
  Writes-lift_bind r f h q = rw h (record { at = q.at })

module _ {E W A : Type 0} {wr : Writer W} where
  pub Writes-pure : (a : A) → Writes wr (pure {E = E} a) [] a
  unfolding pure
  Writes-pure a = record { at = λ w. (w, refl, sym (append-nil (wr.written w))) }

module _ {E F W A : Type 0} {wr : Writer W} where
  pub Writes-convert :
      (c : E → F) (m : Step E W A) {b : Bytes} {a : A}
      → Writes wr m b a
      → Writes wr (convert c m) b a
  unfolding convert
  Writes-convert c m p = record { at = λ w. let (s, e₁, u) = p.at w in (s, rw e₁, u) }
