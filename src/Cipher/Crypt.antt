-- ===== src/Cipher/Crypt.antt =====
-- src/cipher.rs: `Cipher::encrypt`, `decrypt` and the operations on a given slice.
use rust_osshkeys.Prelude.{ℕ, Bytes, length, take, replicate, leb, if◌then◌else◌, ok, and_then}
use rust_osshkeys.Error.{OsshResult, fail, invalid_length}
use rust_osshkeys.Cipher.Table.{
  Cipher, aes128_cbc, aes192_cbc, aes256_cbc, aes128_ctr, aes192_ctr, aes256_ctr, tdes_cbc, null,
  block_size,
}
use rust_osshkeys.Cipher.Impl.{overwrite}
use rust_osshkeys.Cipher.Backend.{Backend, internal_impl}

-- `Cipher::Null`: a copy.
unfoldable pub copy_to : Bytes → Bytes → OsshResult (ℕ × Bytes)
copy_to dest src =
    if leb (length src) (length dest)
    then ok (length src, overwrite src dest)
    else fail invalid_length

module _ (backend : Backend) where
  unfoldable pub calc_buffer_len : Cipher → ℕ → ℕ
  unfolding internal_impl block_size
  calc_buffer_len c len = (internal_impl backend).calc_buflen len (block_size c)

  unfoldable pub encrypt_to : Cipher → Bytes → Bytes → Bytes → Bytes → OsshResult (ℕ × Bytes)
  unfolding copy_to internal_impl
  encrypt_to aes128_cbc dest src key iv = (internal_impl backend).aes128cbc_encrypt dest src key iv
  encrypt_to aes192_cbc dest src key iv = (internal_impl backend).aes192cbc_encrypt dest src key iv
  encrypt_to aes256_cbc dest src key iv = (internal_impl backend).aes256cbc_encrypt dest src key iv
  encrypt_to aes128_ctr dest src key iv = (internal_impl backend).aes128ctr_encrypt dest src key iv
  encrypt_to aes192_ctr dest src key iv = (internal_impl backend).aes192ctr_encrypt dest src key iv
  encrypt_to aes256_ctr dest src key iv = (internal_impl backend).aes256ctr_encrypt dest src key iv
  encrypt_to tdes_cbc dest src key iv = (internal_impl backend).tdescbc_encrypt dest src key iv
  encrypt_to null dest src key iv = copy_to dest src

  -- `Cipher::encrypt`: into a fresh buffer, which is then truncated.
  unfoldable pub encrypt : Cipher → Bytes → Bytes → Bytes → OsshResult Bytes
  unfolding encrypt_to calc_buffer_len
  encrypt c src key iv =
      and_then (encrypt_to c (replicate (calc_buffer_len c (length src)) 0) src key iv)
        (λ p. ok (take p.0 p.1))

  unfoldable pub decrypt_to : Cipher → Bytes → Bytes → Bytes → Bytes → OsshResult (ℕ × Bytes)
  unfolding copy_to internal_impl
  decrypt_to aes128_cbc dest src key iv = (internal_impl backend).aes128cbc_decrypt dest src key iv
  decrypt_to aes192_cbc dest src key iv = (internal_impl backend).aes192cbc_decrypt dest src key iv
  decrypt_to aes256_cbc dest src key iv = (internal_impl backend).aes256cbc_decrypt dest src key iv
  decrypt_to aes128_ctr dest src key iv = (internal_impl backend).aes128ctr_decrypt dest src key iv
  decrypt_to aes192_ctr dest src key iv = (internal_impl backend).aes192ctr_decrypt dest src key iv
  decrypt_to aes256_ctr dest src key iv = (internal_impl backend).aes256ctr_decrypt dest src key iv
  decrypt_to tdes_cbc dest src key iv = (internal_impl backend).tdescbc_decrypt dest src key iv
  decrypt_to null dest src key iv = copy_to dest src

  -- `Cipher::decrypt`: into a fresh buffer, which is then truncated.
  unfoldable pub decrypt : Cipher → Bytes → Bytes → Bytes → OsshResult Bytes
  unfolding decrypt_to calc_buffer_len
  decrypt c src key iv =
      and_then (decrypt_to c (replicate (calc_buffer_len c (length src)) 0) src key iv)
        (λ p. ok (take p.0 p.1))
