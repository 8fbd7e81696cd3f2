-- ===== src/Cipher/Backend.antt =====
-- src/cipher.rs: the choice of `internal_impl` by the features of the crate, of which exactly one
-- must be on.
use rust_osshkeys.Prelude.{Bytes}
use rust_osshkeys.External.Crypters.{Crypters, SymmCipher}
use rust_osshkeys.External.BlockModes.{BlockModes}
use rust_osshkeys.Cipher.Impl.{InternalImpl, Implements}
use rust_osshkeys.Cipher.Openssl.{openssl_impl}
use rust_osshkeys.Cipher.Rustcrypto.{rustcrypto_impl}
use rust_osshkeys.Cipher.OpensslImplements.{openssl-Implements}
use rust_osshkeys.Cipher.RustcryptoImplements.{rustcrypto_encrypted, rustcrypto-Implements}

pub data Backend : Type 1 where
  openssl_cipher : Crypters → Backend
  rustcrypto_cipher : BlockModes → Backend

unfoldable pub internal_impl : Backend → InternalImpl
unfolding openssl_impl rustcrypto_impl
internal_impl (openssl_cipher cr) = openssl_impl cr
internal_impl (rustcrypto_cipher bm) = rustcrypto_impl bm

abbrev pub encrypted : Backend → SymmCipher → Bytes → Bytes → Bytes → Bytes
encrypted (openssl_cipher cr) = cr.encrypted
encrypted (rustcrypto_cipher bm) = rustcrypto_encrypted bm

pub implements : (b : Backend) → Implements (internal_impl b) (encrypted b)
unfolding internal_impl
implements (openssl_cipher cr) = openssl-Implements cr
implements (rustcrypto_cipher bm) = rustcrypto-Implements bm
