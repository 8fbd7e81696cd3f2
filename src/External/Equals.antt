-- ===== src/External/Equals.antt =====
-- OpenSSL's comparison of numbers and of points.
use rust_osshkeys.Prelude.{Bytes, ◌≡◌, ◌↔◌, Bool, true, Outcome, ok}
use rust_osshkeys.External.KeyTypes.{KeyLib}

pub record Equals (keys : KeyLib) : Type 0 where
  pub bn_eq : keys.bn.BigNum → keys.bn.BigNum → Bool
  -- `EcPointRef::eq`, with a fresh `BigNumContext`.
  pub point_eq : keys.ec.Group → keys.ec.Point → keys.ec.Point → Outcome Unit Bool
  pub bn_eq_iff : (a b : keys.bn.BigNum) → (bn_eq a b ≡ true) ↔ (a ≡ b)
  -- For a point of the group.
  pub point_eq_iff :
      (g : keys.ec.Group) (p q : keys.ec.Point) (b : Bytes)
      → keys.ec.point_to_bytes g p ≡ ok b
      → (point_eq g p q ≡ ok true) ↔ (p ≡ q)
