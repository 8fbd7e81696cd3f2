-- ===== src/Keys/Pkey.antt =====
-- src/keys: keys from and to `PKey` of OpenSSL.
use rust_osshkeys.Prelude.{ok, and_then}
use rust_osshkeys.Error.{OsshResult, fail, from_openssl, on_unit, unsupport_type}
use rust_osshkeys.External.KeyTypes.{KeyLib}
use rust_osshkeys.External.PKeys.{PKeys, PkeyId}
use rust_osshkeys.Keys.Rsa
use rust_osshkeys.Keys.Rsa.{sha1}
use rust_osshkeys.Keys.Dsa
use rust_osshkeys.Keys.Dsa.{DsaPublicKey}
use rust_osshkeys.Keys.Ecdsa
use rust_osshkeys.Keys.Ecdsa.{EcDsaPublicKey}
use rust_osshkeys.Keys.Ed25519
use rust_osshkeys.Keys.Ed25519.{Ed25519PublicKey, Ed25519KeyPair}
use rust_osshkeys.Keys.Container.{
  PublicKeyType, KeyPairType, PublicKey, KeyPair, public_from, pair_from,
}

module _ (lib : KeyLib) (pk : PKeys lib) where
  -- `ossl_pkey` of `DsaPublicKey`, `EcDsaPublicKey`, `Ed25519PublicKey` and `Ed25519KeyPair`, with
  -- the error of OpenSSL converted.
  unfoldable pub dsa_ossl_pkey : DsaPublicKey lib → OsshResult pk.Public
  dsa_ossl_pkey k = on_unit from_openssl (pk.public_from_dsa k.dsa)

  unfoldable pub ecdsa_ossl_pkey : EcDsaPublicKey lib → OsshResult pk.Public
  ecdsa_ossl_pkey k = on_unit from_openssl (pk.public_from_ec_key k.key)

  unfoldable pub ed25519_ossl_pkey : Ed25519PublicKey lib → OsshResult pk.Public
  ed25519_ossl_pkey k = on_unit from_openssl (pk.public_key_from_raw_bytes (lib.ed.to_bytes k.key))

  unfoldable pub ed25519_pair_ossl_pkey : Ed25519KeyPair lib → OsshResult pk.Private
  ed25519_pair_ossl_pkey k =
      on_unit from_openssl (pk.private_key_from_raw_bytes (lib.ed.signing_key_to_bytes k.key))

  -- `KeyPair::ossl_pkey`.
  unfoldable pub ossl_pkey : KeyPairType lib → OsshResult pk.Private
  unfolding ed25519_pair_ossl_pkey
  ossl_pkey (KeyPairType.rsa k) = on_unit from_openssl (pk.private_from_rsa k.rsa)
  ossl_pkey (KeyPairType.dsa k) = on_unit from_openssl (pk.private_from_dsa k.dsa)
  ossl_pkey (KeyPairType.ecdsa k) = on_unit from_openssl (pk.private_from_ec_key k.key)
  ossl_pkey (KeyPairType.ed25519 k) = ed25519_pair_ossl_pkey k

  -- The match on `pkey.id()` in `PublicKey::from_ossl_pkey`.
  unfoldable pub public_of_id : PkeyId → pk.Public → OsshResult (PublicKey lib)
  unfolding Rsa.public_from_ossl_rsa Dsa.public_from_ossl_dsa Ecdsa.public_from_ossl_ec
      Ed25519.public_from_ossl_ed25519
  public_of_id PkeyId.rsa pkey = and_then (on_unit from_openssl (pk.public_rsa pkey)) (λ key.
      and_then (Rsa.public_from_ossl_rsa lib key sha1)
        (λ k. ok (public_from lib (PublicKeyType.rsa k))))
  public_of_id PkeyId.dsa pkey =
      and_then (on_unit from_openssl (pk.public_dsa pkey))
        (λ key. ok (public_from lib (PublicKeyType.dsa (Dsa.public_from_ossl_dsa lib key))))
  public_of_id PkeyId.ec pkey = and_then (on_unit from_openssl (pk.public_ec_key pkey)) (λ key.
      and_then (Ecdsa.public_from_ossl_ec lib key)
        (λ k. ok (public_from lib (PublicKeyType.ecdsa k))))
  public_of_id PkeyId.ed25519 pkey =
      and_then (on_unit from_openssl (pk.raw_public_key pkey)) (λ key.
        and_then (Ed25519.public_from_ossl_ed25519 lib key)
          (λ k. ok (public_from lib (PublicKeyType.ed25519 k))))
  public_of_id PkeyId.other_id pkey = fail unsupport_type

  unfoldable pub public_from_ossl_pkey : pk.Public → OsshResult (PublicKey lib)
  unfolding public_of_id
  public_from_ossl_pkey pkey = public_of_id (pk.public_id pkey) pkey

  -- The match on `pkey.id()` in `KeyPair::from_ossl_pkey`.
  unfoldable pub pair_of_id : PkeyId → pk.Private → OsshResult (KeyPair lib)
  unfolding Rsa.pair_from_ossl_rsa Dsa.from_ossl_dsa Ecdsa.pair_from_ossl_ec
      Ed25519.from_ossl_ed25519
  pair_of_id PkeyId.rsa pkey = and_then (on_unit from_openssl (pk.private_rsa pkey)) (λ key.
      and_then (Rsa.pair_from_ossl_rsa lib key sha1) (λ k. ok (pair_from lib (KeyPairType.rsa k))))
  pair_of_id PkeyId.dsa pkey =
      and_then (on_unit from_openssl (pk.private_dsa pkey))
        (λ key. ok (pair_from lib (KeyPairType.dsa (Dsa.from_ossl_dsa lib key))))
  pair_of_id PkeyId.ec pkey = and_then (on_unit from_openssl (pk.private_ec_key pkey)) (λ key.
      and_then (Ecdsa.pair_from_ossl_ec lib key) (λ k. ok (pair_from lib (KeyPairType.ecdsa k))))
  pair_of_id PkeyId.ed25519 pkey = and_then (on_unit from_openssl (pk.raw_private_key pkey)) (λ key.
      and_then (Ed25519.from_ossl_ed25519 lib key)
        (λ k. ok (pair_from lib (KeyPairType.ed25519 k))))
  pair_of_id PkeyId.other_id pkey = fail unsupport_type

  unfoldable pub pair_from_ossl_pkey : pk.Private → OsshResult (KeyPair lib)
  unfolding pair_of_id
  pair_from_ossl_pkey pkey = pair_of_id (pk.private_id pkey) pkey
