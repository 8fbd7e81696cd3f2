-- ===== src/Format/Pkcs8.antt =====
-- src/format/pkcs8.rs: a key pair as a PKCS#8 text.
use rust_osshkeys.Prelude.{Bytes, Option, none, some, and_then}
use rust_osshkeys.Error.{OsshResult, from_openssl, on_unit}
use rust_osshkeys.External.Crypters.{aes_128_cbc}
use rust_osshkeys.External.PemLib.{PemLib}
use rust_osshkeys.Keys.Container.{KeyPair}
use rust_osshkeys.Keys.Pkey.{ossl_pkey}
use rust_osshkeys.Format.Pem.{from_utf8}

module _ (lib : PemLib) where
  -- `pem` in `serialize_pkcs8_privkey`.
  unfoldable pub pkcs8_pem : lib.pk.Private → Option Bytes → OsshResult Bytes
  pkcs8_pem pkey (some passphrase) =
      on_unit from_openssl
        (lib.pems.private_key_to_pem_pkcs8_passphrase pkey aes_128_cbc passphrase)
  pkcs8_pem pkey none = on_unit from_openssl (lib.pems.private_key_to_pem_pkcs8 pkey)

  unfoldable pub serialize_pkcs8_privkey : KeyPair lib.ossh.keys → Option Bytes → OsshResult Bytes
  unfolding ossl_pkey pkcs8_pem from_utf8
  serialize_pkcs8_privkey keypair passphrase =
      and_then (ossl_pkey lib.ossh.keys lib.pk keypair.key)
        (λ pkey. and_then (pkcs8_pem pkey passphrase) from_utf8)
