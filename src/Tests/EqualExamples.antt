-- ===== src/Tests/EqualExamples.antt =====
-- Comparing public keys at concrete inputs.
use rust_osshkeys.Prelude.{
  ◌≡◌, ◌↔◌, refl, ap, Bytes, ◌∷◌, [], bytes_eq, bytes_eq_iff, Bool, true, Outcome, ok, arith,
}
use rust_osshkeys.External.KeyTypes.{Nid}
use rust_osshkeys.External.Equals.{Equals}
use rust_osshkeys.Keys.Container.{PublicKeyType, public_keytype}
use rust_osshkeys.Keys.Ecdsa.{EcCurve, nid}
use rust_osshkeys.Format.Pubkey.Encode.{public_blob}
use rust_osshkeys.Format.Pubkey.SameBlob.{compared, compared-public_blob}
use rust_osshkeys.Tests.KeyObjects.{key_objects}

abbrev point_compared : Nid → Bytes → Bytes → Outcome (Unit {0}) Bool
point_compared g p q = ok (bytes_eq p q)

point_compared_lem :
    (g : Nid) (p q b : Bytes)
    → key_objects.ec.point_to_bytes g p ≡ ok b
    → (point_compared g p q ≡ ok true) ↔ (p ≡ q)
point_compared_lem g p q b h = (
  λ e. (bytes_eq_iff p q).0 (let t : bytes_eq p q ≡ true = cc in t),
  λ e. ap ok ((bytes_eq_iff p q).1 e),
)

abbrev equals : Equals key_objects
equals = record {
  bn_eq = bytes_eq;
  point_eq = point_compared;
  bn_eq_iff = bytes_eq_iff;
  point_eq_iff = point_compared_lem;
}

-- An elliptic curve key with a given point.
abbrev ec_key : Bytes → PublicKeyType key_objects
ec_key p =
    PublicKeyType.ecdsa (record {
      key = record { group = nid EcCurve.nistp256; point = p };
      curve = EcCurve.nistp256;
    })

compared-public_blob_example :
    (compared key_objects equals (ec_key (4 ∷ 1 ∷ 2 ∷ [])) (ec_key (4 ∷ 1 ∷ 3 ∷ [])) ≡ ok true) ↔ (
      public_blob key_objects (ec_key (4 ∷ 1 ∷ 2 ∷ []))
      ≡ public_blob key_objects (ec_key (4 ∷ 1 ∷ 3 ∷ [])))
unfolding public_keytype
compared-public_blob_example =
    compared-public_blob key_objects equals (ec_key (4 ∷ 1 ∷ 2 ∷ [])) (ec_key (4 ∷ 1 ∷ 3 ∷ [])) refl
      (4 ∷ 1 ∷ 2 ∷ [], record { in_group = refl; encoded = refl; fits = omega arith })
      (4 ∷ 1 ∷ 3 ∷ [], record { in_group = refl; encoded = refl; fits = omega arith })
