-- ===== src/Tests/CipherExamples.antt =====
-- The theorems on ciphers at concrete inputs.
use rust_osshkeys.Prelude.{◌≡◌, refl, Bytes, ascii, replicate, ok, ◌↔◌}
use rust_osshkeys.Cipher.Table.{iv_len, key_len, aes256_cbc, from_str, tdes_cbc}
use rust_osshkeys.Cipher.Crypt.{encrypt, decrypt}
use rust_osshkeys.Cipher.Names.{from_str_iff, IsNameOf}
use rust_osshkeys.Cipher.RoundTrip.{decrypt-encrypt, decrypt-encrypt_across}
use rust_osshkeys.Cipher.Impl.{Implements}
use rust_osshkeys.Cipher.Openssl.{openssl_impl}
use rust_osshkeys.Cipher.Rustcrypto.{rustcrypto_impl}
use rust_osshkeys.Cipher.OpensslImplements.{openssl-Implements}
use rust_osshkeys.Cipher.RustcryptoImplements.{rustcrypto_encrypted, rustcrypto-Implements}
use rust_osshkeys.Cipher.Backend.{openssl_cipher, rustcrypto_cipher}
use rust_osshkeys.Tests.Ciphers.{crypters, block_modes, backends-Agree}

from_str_iff_example :
    (from_str (ascii "aes256-cbc") ≡ ok aes256_cbc) ↔ IsNameOf (ascii "aes256-cbc") aes256_cbc
from_str_iff_example = from_str_iff (ascii "aes256-cbc") aes256_cbc

decrypt-encrypt_example :
    (out : Bytes) × (encrypt
        (rustcrypto_cipher block_modes)
        aes256_cbc
        (ascii "text")
        (replicate 32 1)
        (replicate 16 2)
      ≡ ok out)
    × (decrypt (rustcrypto_cipher block_modes) aes256_cbc out (replicate 32 1) (replicate 16 2)
        ≡ ok (ascii "text"))
decrypt-encrypt_example =
    decrypt-encrypt (rustcrypto_cipher block_modes) (ascii "text") (replicate 32 1) (replicate 16 2)
      aes256_cbc (unfold key_len in refl) (unfold iv_len in refl)

decrypt-encrypt_across_example :
    (out : Bytes) × (encrypt
        (openssl_cipher crypters)
        tdes_cbc
        (ascii "text")
        (replicate 24 1)
        (replicate 8 2)
      ≡ ok out)
    × (decrypt (rustcrypto_cipher block_modes) tdes_cbc out (replicate 24 1) (replicate 8 2)
        ≡ ok (ascii "text"))
decrypt-encrypt_across_example =
    decrypt-encrypt_across (openssl_cipher crypters) (rustcrypto_cipher block_modes) tdes_cbc
      (ascii "text") (replicate 24 1) (replicate 8 2) backends-Agree (unfold key_len in refl)
      (unfold iv_len in refl)

openssl-Implements_example : Implements (openssl_impl crypters) crypters.encrypted
openssl-Implements_example = openssl-Implements crypters

rustcrypto-Implements_example :
    Implements (rustcrypto_impl block_modes) (rustcrypto_encrypted block_modes)
rustcrypto-Implements_example = rustcrypto-Implements block_modes
