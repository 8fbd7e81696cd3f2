-- ===== src/Keys/Equality.antt =====
-- src/keys: `PartialEq` of the public key types.
use rust_osshkeys.Prelude.{Bool, false, ◌&&◌, Outcome, ok, err, panic, if◌then◌else◌}
use rust_osshkeys.Error.{OsshResult}
use rust_osshkeys.External.KeyTypes.{KeyLib}
use rust_osshkeys.External.Equals.{Equals}
use rust_osshkeys.Keys.Rsa.{RsaPublicKey}
use rust_osshkeys.Keys.Dsa.{DsaPublicKey}
use rust_osshkeys.Keys.Ecdsa.{EcDsaPublicKey, curve_eq}
use rust_osshkeys.Keys.Ed25519.{Ed25519PublicKey}

-- `unwrap`.
abbrev pub unwrap : {E A : Type 0} → Outcome E A → OsshResult A
unwrap (ok a) = ok a
unwrap (err e) = panic
unwrap panic = panic

module _ (lib : KeyLib) (eq : Equals lib) where
  -- The signature hash is not compared.
  unfoldable pub rsa_eq : RsaPublicKey lib → RsaPublicKey lib → Bool
  rsa_eq a b =
      eq.bn_eq (lib.rsa.e a.rsa) (lib.rsa.e b.rsa) && eq.bn_eq (lib.rsa.n a.rsa) (lib.rsa.n b.rsa)

  unfoldable pub dsa_eq : DsaPublicKey lib → DsaPublicKey lib → Bool
  dsa_eq a b =
      eq.bn_eq (lib.dsa.p a.dsa) (lib.dsa.p b.dsa)
      && (eq.bn_eq (lib.dsa.q a.dsa) (lib.dsa.q b.dsa)
          && (eq.bn_eq (lib.dsa.g a.dsa) (lib.dsa.g b.dsa)
              && eq.bn_eq (lib.dsa.pub_key a.dsa) (lib.dsa.pub_key b.dsa)))

  -- The points are only compared on the same curve; `unwrap` may panic.
  unfoldable pub ecdsa_eq : EcDsaPublicKey lib → EcDsaPublicKey lib → OsshResult Bool
  unfolding curve_eq
  ecdsa_eq a b =
      if curve_eq a.curve b.curve
      then unwrap
          (eq.point_eq (lib.ec.group a.key) (lib.ec.public_key a.key) (lib.ec.public_key b.key))
      else ok false

  unfoldable pub ed25519_eq : Ed25519PublicKey lib → Ed25519PublicKey lib → Bool
  ed25519_eq a b = lib.ed.key_eq a.key b.key
