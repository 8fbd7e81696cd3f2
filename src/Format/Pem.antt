-- ===== src/Format/Pem.antt =====
-- src/format/pem.rs: keys as PEM texts, through OpenSSL.
use rust_osshkeys.Prelude.{
  Bytes, ascii, bytes_eq, length, take, Option, none, some, if◌then◌else◌, ok, err, and_then,
  map_err, Bool,
}
use rust_osshkeys.Error.{
  OsshResult, from_kind, from_openssl, on_unit, with_error, incorrect_pass, invalid_pem_format,
  utf8,
}
use rust_osshkeys.External.Crypters.{aes_128_cbc}
use rust_osshkeys.External.PemLib.{PemLib}
use rust_osshkeys.Sshbuf.Utf8.{is_utf8}
use rust_osshkeys.Keys.Rsa
use rust_osshkeys.Keys.Rsa.{sha1}
use rust_osshkeys.Keys.Container.{PublicKeyType, KeyPairType, PublicKey, KeyPair, public_from}
use rust_osshkeys.Keys.Pkey.{
  pair_from_ossl_pkey, public_from_ossl_pkey, dsa_ossl_pkey, ecdsa_ossl_pkey, ed25519_ossl_pkey,
  ed25519_pair_ossl_pkey,
}

-- `starts_with` of slices and of `str`.
unfoldable pub starts_with : Bytes → Bytes → Bool
unfolding bytes_eq
starts_with s prefix = bytes_eq (take (length prefix) s) prefix

-- `String::from_utf8` with its error converted.
unfoldable pub from_utf8 : Bytes → OsshResult Bytes
unfolding is_utf8
from_utf8 pem = if is_utf8 pem then ok pem else err (with_error invalid_pem_format utf8)

module _ (lib : PemLib) where
  unfoldable pub parse_pem_privkey : Bytes → Option Bytes → OsshResult (KeyPair lib.ossh.keys)
  unfolding pair_from_ossl_pkey
  parse_pem_privkey pem (some passphrase) =
      and_then
        (map_err (λ _. from_kind incorrect_pass)
          (lib.pems.private_key_from_pem_passphrase pem passphrase))
        (pair_from_ossl_pkey lib.ossh.keys lib.pk)
  parse_pem_privkey pem none =
      and_then (on_unit from_openssl (lib.pems.private_key_from_pem pem))
        (pair_from_ossl_pkey lib.ossh.keys lib.pk)

  -- `pem` in `stringify_pem_privkey`.
  unfoldable pub privkey_pem : KeyPairType lib.ossh.keys → Option Bytes → OsshResult Bytes
  unfolding ed25519_pair_ossl_pkey
  privkey_pem (KeyPairType.rsa key) (some passphrase) =
      on_unit from_openssl (lib.pems.rsa_to_pem_passphrase key.rsa aes_128_cbc passphrase)
  privkey_pem (KeyPairType.dsa key) (some passphrase) =
      on_unit from_openssl (lib.pems.dsa_to_pem_passphrase key.dsa aes_128_cbc passphrase)
  privkey_pem (KeyPairType.ecdsa key) (some passphrase) =
      on_unit from_openssl (lib.pems.ec_to_pem_passphrase key.key aes_128_cbc passphrase)
  privkey_pem (KeyPairType.ed25519 key) (some passphrase) =
      and_then (ed25519_pair_ossl_pkey lib.ossh.keys lib.pk key) (λ pkey.
        on_unit from_openssl
          (lib.pems.private_key_to_pem_pkcs8_passphrase pkey aes_128_cbc passphrase))
  privkey_pem (KeyPairType.rsa key) none = on_unit from_openssl (lib.pems.rsa_to_pem key.rsa)
  privkey_pem (KeyPairType.dsa key) none = on_unit from_openssl (lib.pems.dsa_to_pem key.dsa)
  privkey_pem (KeyPairType.ecdsa key) none = on_unit from_openssl (lib.pems.ec_to_pem key.key)
  privkey_pem (KeyPairType.ed25519 key) none =
      and_then (ed25519_pair_ossl_pkey lib.ossh.keys lib.pk key)
        (λ pkey. on_unit from_openssl (lib.pems.private_key_to_pem_pkcs8 pkey))

  unfoldable pub stringify_pem_privkey : KeyPair lib.ossh.keys → Option Bytes → OsshResult Bytes
  unfolding privkey_pem from_utf8
  stringify_pem_privkey keypair passphrase = and_then (privkey_pem keypair.key passphrase) from_utf8

  unfoldable pub parse_pem_pubkey : Bytes → OsshResult (PublicKey lib.ossh.keys)
  unfolding starts_with Rsa.public_from_ossl_rsa public_from_ossl_pkey
  parse_pem_pubkey pem =
      if starts_with pem (ascii "-----BEGIN RSA PUBLIC KEY-----")
      then and_then (on_unit from_openssl (lib.pems.public_key_from_pem_pkcs1 pem)) (λ rsa.
        and_then (Rsa.public_from_ossl_rsa lib.ossh.keys rsa sha1)
          (λ rsapubkey. ok (public_from lib.ossh.keys (PublicKeyType.rsa rsapubkey))))
      else and_then (on_unit from_openssl (lib.pems.public_key_from_pem pem))
          (public_from_ossl_pkey lib.ossh.keys lib.pk)

  -- `pem` in `stringify_pem_pubkey`.
  unfoldable pub pubkey_pem : PublicKeyType lib.ossh.keys → OsshResult Bytes
  unfolding dsa_ossl_pkey ecdsa_ossl_pkey ed25519_ossl_pkey
  pubkey_pem (PublicKeyType.rsa key) =
      on_unit from_openssl (lib.pems.public_key_to_pem_pkcs1 key.rsa)
  pubkey_pem (PublicKeyType.dsa key) =
      and_then (dsa_ossl_pkey lib.ossh.keys lib.pk key)
        (λ pkey. on_unit from_openssl (lib.pems.public_key_to_pem pkey))
  pubkey_pem (PublicKeyType.ecdsa key) =
      and_then (ecdsa_ossl_pkey lib.ossh.keys lib.pk key)
        (λ pkey. on_unit from_openssl (lib.pems.public_key_to_pem pkey))
  pubkey_pem (PublicKeyType.ed25519 key) =
      and_then (ed25519_ossl_pkey lib.ossh.keys lib.pk key)
        (λ pkey. on_unit from_openssl (lib.pems.public_key_to_pem pkey))

  unfoldable pub stringify_pem_pubkey : PublicKey lib.ossh.keys → OsshResult Bytes
  unfolding pubkey_pem from_utf8
  stringify_pem_pubkey pubkey = and_then (pubkey_pem pubkey.key) from_utf8
