-- ===== src/Keys/Sign.antt =====
-- src/keys: `PublicParts::verify` and `PrivateParts::sign` of the key types and of the containers.
use rust_osshkeys.Prelude.{
  Bytes, Bool, true, false, ltb, if◌then◌else◌, Outcome, ok, err, panic, and_then,
}
use rust_osshkeys.Error.{OsshResult, fail, from_openssl, from_signature, on_unit, invalid_key_size}
use rust_osshkeys.External.KeyTypes.{KeyLib}
use rust_osshkeys.External.PKeys.{PKeys}
use rust_osshkeys.External.Signers.{Signers, MessageDigest, sha256, sha512}
use rust_osshkeys.Keys.Rsa
use rust_osshkeys.Keys.Rsa.{
  RsaPublicKey, RsaKeyPair, RsaSignature, sha1, sha2_256, sha2_512, rsa_min_size,
}
use rust_osshkeys.Keys.Dsa
use rust_osshkeys.Keys.Dsa.{DsaPublicKey, DsaKeyPair}
use rust_osshkeys.Keys.Ecdsa
use rust_osshkeys.Keys.Ecdsa.{EcDsaPublicKey, EcDsaKeyPair}
use rust_osshkeys.Keys.Ed25519.{Ed25519PublicKey, Ed25519KeyPair}
use rust_osshkeys.Keys.Container.{PublicKeyType, KeyPairType}

-- `RsaSignature::get_digest`.
unfoldable pub get_digest : RsaSignature → MessageDigest
get_digest sha1 = MessageDigest.sha1
get_digest sha2_256 = sha256
get_digest sha2_512 = sha512

abbrev pub is_ok : {A : Type 0} → Outcome Unit A → OsshResult Bool
is_ok (ok _) = ok true
is_ok (err _) = ok false
is_ok panic = panic

module _ (lib : KeyLib) (pk : PKeys lib) (sg : Signers lib pk) where
  -- `Signer::new`, `update` and `sign_to_vec`; `Verifier::new`, `update` and `verify`.
  unfoldable pub sign_pkey : MessageDigest → OsshResult pk.Private → Bytes → OsshResult Bytes
  sign_pkey md key data_ = and_then key (λ pkey.
      and_then (on_unit from_openssl (sg.new_signer md pkey)) (λ sign.
        and_then (on_unit from_openssl (sg.update_signer sign data_))
          (λ fed. on_unit from_openssl (sg.sign_to_vec fed))))

  unfoldable pub verify_pkey :
      MessageDigest → OsshResult pk.Public → Bytes → Bytes → OsshResult Bool
  verify_pkey md key data_ sig = and_then key (λ pkey.
      and_then (on_unit from_openssl (sg.new_verifier md pkey)) (λ veri.
        and_then (on_unit from_openssl (sg.update_verifier veri data_))
          (λ fed. on_unit from_openssl (sg.verify sig fed))))

  unfoldable pub rsa_verify : RsaPublicKey lib → Bytes → Bytes → OsshResult Bool
  unfolding Rsa.public_size get_digest verify_pkey
  rsa_verify k data_ sig =
      if ltb (Rsa.public_size lib k) rsa_min_size
      then fail invalid_key_size
      else verify_pkey (get_digest k.signhash) (on_unit from_openssl (pk.public_from_rsa k.rsa))
          data_ sig

  unfoldable pub dsa_verify : DsaPublicKey lib → Bytes → Bytes → OsshResult Bool
  unfolding verify_pkey
  dsa_verify k data_ sig =
      verify_pkey MessageDigest.sha1 (on_unit from_openssl (pk.public_from_dsa k.dsa)) data_ sig

  unfoldable pub ecdsa_verify : EcDsaPublicKey lib → Bytes → Bytes → OsshResult Bool
  unfolding verify_pkey
  ecdsa_verify k data_ sig =
      verify_pkey MessageDigest.sha1 (on_unit from_openssl (pk.public_from_ec_key k.key)) data_ sig

  unfoldable pub ed25519_verify : Ed25519PublicKey lib → Bytes → Bytes → OsshResult Bool
  ed25519_verify k data_ sig =
      and_then (on_unit from_signature (sg.try_from sig))
        (λ ed25519_sig. is_ok (sg.ed_verify k.key data_ ed25519_sig))

  -- `verify` of `PublicKey`, and of `KeyPair`.
  unfoldable pub public_verify : PublicKeyType lib → Bytes → Bytes → OsshResult Bool
  unfolding rsa_verify dsa_verify ecdsa_verify ed25519_verify
  public_verify (PublicKeyType.rsa k) = rsa_verify k
  public_verify (PublicKeyType.dsa k) = dsa_verify k
  public_verify (PublicKeyType.ecdsa k) = ecdsa_verify k
  public_verify (PublicKeyType.ed25519 k) = ed25519_verify k

  unfoldable pub pair_verify : KeyPairType lib → Bytes → Bytes → OsshResult Bool
  unfolding rsa_verify dsa_verify ecdsa_verify Rsa.clone_public_key Dsa.clone_public_key
      Ecdsa.clone_public_key
  pair_verify (KeyPairType.rsa k) data_ sig =
      and_then (Rsa.clone_public_key lib k) (λ p. rsa_verify p data_ sig)
  pair_verify (KeyPairType.dsa k) data_ sig =
      and_then (Dsa.clone_public_key lib k) (λ p. dsa_verify p data_ sig)
  pair_verify (KeyPairType.ecdsa k) data_ sig =
      and_then (Ecdsa.clone_public_key lib k) (λ p. ecdsa_verify p data_ sig)
  pair_verify (KeyPairType.ed25519 k) data_ sig =
      and_then (on_unit from_signature (sg.try_from sig))
        (λ ed25519_sig. is_ok (sg.ed_pair_verify k.key data_ ed25519_sig))

  -- `sign` of the key pairs, and of `KeyPair`.
  unfoldable pub rsa_sign : RsaKeyPair lib → Bytes → OsshResult Bytes
  unfolding Rsa.pair_size get_digest sign_pkey
  rsa_sign k data_ =
      if ltb (Rsa.pair_size lib k) rsa_min_size
      then fail invalid_key_size
      else sign_pkey (get_digest k.signhash) (on_unit from_openssl (pk.private_from_rsa k.rsa))
          data_

  unfoldable pub dsa_sign : DsaKeyPair lib → Bytes → OsshResult Bytes
  unfolding sign_pkey
  dsa_sign k data_ =
      sign_pkey MessageDigest.sha1 (on_unit from_openssl (pk.private_from_dsa k.dsa)) data_

  unfoldable pub ecdsa_sign : EcDsaKeyPair lib → Bytes → OsshResult Bytes
  unfolding sign_pkey
  ecdsa_sign k data_ =
      sign_pkey MessageDigest.sha1 (on_unit from_openssl (pk.private_from_ec_key k.key)) data_

  unfoldable pub ed25519_sign : Ed25519KeyPair lib → Bytes → OsshResult Bytes
  ed25519_sign k data_ = ok (sg.to_bytes (sg.ed_sign k.key data_))

  unfoldable pub pair_sign : KeyPairType lib → Bytes → OsshResult Bytes
  unfolding rsa_sign dsa_sign ecdsa_sign ed25519_sign
  pair_sign (KeyPairType.rsa k) = rsa_sign k
  pair_sign (KeyPairType.dsa k) = dsa_sign k
  pair_sign (KeyPairType.ecdsa k) = ecdsa_sign k
  pair_sign (KeyPairType.ed25519 k) = ed25519_sign k
