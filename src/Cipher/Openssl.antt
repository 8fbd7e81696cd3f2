-- ===== src/Cipher/Openssl.antt =====
-- src/cipher.rs: `internal_impl` with the feature `openssl-cipher`, which is on by default.
use rust_osshkeys.Prelude.{
  ℕ, ◌+◌, ◌-◌, Bytes, ◌++◌, length, ltb, if◌then◌else◌, ok, panic, and_then,
}
use rust_osshkeys.Error.{OsshResult, from_openssl, on_unit}
use rust_osshkeys.Cipher.Impl.{overwrite, InternalImpl}
use rust_osshkeys.External.Crypters.{
  Crypters, SymmCipher, aes_128_cbc, aes_192_cbc, aes_256_cbc, aes_128_ctr, aes_192_ctr,
  aes_256_ctr, des_ede3_cbc, Mode, encrypt, decrypt,
}

unfoldable pub calc_buflen : ℕ → ℕ → ℕ
calc_buflen len block_size = len + block_size

module _ (cr : Crypters) where
  -- The body that `openssl_encrypt` and `openssl_decrypt` share. `dest[n..]` panics if `n` is
  -- behind the end.
  unfoldable pub openssl_crypt :
      Mode → SymmCipher → Bytes → Bytes → Bytes → Bytes → OsshResult (ℕ × Bytes)
  openssl_crypt mode cipher dest src key iv =
      and_then (on_unit from_openssl (cr.new cipher mode key iv)) (λ crypt.
        and_then (on_unit from_openssl (cr.update crypt src (length dest))) (λ p.
          let n = length p.0 in
          if ltb (length dest) n
          then panic
          else and_then (on_unit from_openssl (cr.finalize p.1 (length dest - n)))
              (λ last. ok (n + length last, overwrite (p.0 ++ last) dest))))

  unfoldable pub openssl_encrypt :
      SymmCipher → Bytes → Bytes → Bytes → Bytes → OsshResult (ℕ × Bytes)
  unfolding openssl_crypt
  openssl_encrypt = openssl_crypt encrypt

  unfoldable pub openssl_decrypt :
      SymmCipher → Bytes → Bytes → Bytes → Bytes → OsshResult (ℕ × Bytes)
  unfolding openssl_crypt
  openssl_decrypt = openssl_crypt decrypt

  unfoldable pub aes128cbc_encrypt : Bytes → Bytes → Bytes → Bytes → OsshResult (ℕ × Bytes)
  unfolding openssl_encrypt
  aes128cbc_encrypt dest src key iv = openssl_encrypt aes_128_cbc dest src key iv

  unfoldable pub aes192cbc_encrypt : Bytes → Bytes → Bytes → Bytes → OsshResult (ℕ × Bytes)
  unfolding openssl_encrypt
  aes192cbc_encrypt dest src key iv = openssl_encrypt aes_192_cbc dest src key iv

  unfoldable pub aes256cbc_encrypt : Bytes → Bytes → Bytes → Bytes → OsshResult (ℕ × Bytes)
  unfolding openssl_encrypt
  aes256cbc_encrypt dest src key iv = openssl_encrypt aes_256_cbc dest src key iv

  unfoldable pub tdescbc_encrypt : Bytes → Bytes → Bytes → Bytes → OsshResult (ℕ × Bytes)
  unfolding openssl_encrypt
  tdescbc_encrypt dest src key iv = openssl_encrypt des_ede3_cbc dest src key iv

  unfoldable pub aes128ctr_encrypt : Bytes → Bytes → Bytes → Bytes → OsshResult (ℕ × Bytes)
  unfolding openssl_encrypt
  aes128ctr_encrypt dest src key iv = openssl_encrypt aes_128_ctr dest src key iv

  unfoldable pub aes192ctr_encrypt : Bytes → Bytes → Bytes → Bytes → OsshResult (ℕ × Bytes)
  unfolding openssl_encrypt
  aes192ctr_encrypt dest src key iv = openssl_encrypt aes_192_ctr dest src key iv

  unfoldable pub aes256ctr_encrypt : Bytes → Bytes → Bytes → Bytes → OsshResult (ℕ × Bytes)
  unfolding openssl_encrypt
  aes256ctr_encrypt dest src key iv = openssl_encrypt aes_256_ctr dest src key iv

  unfoldable pub aes128cbc_decrypt : Bytes → Bytes → Bytes → Bytes → OsshResult (ℕ × Bytes)
  unfolding openssl_decrypt
  aes128cbc_decrypt dest src key iv = openssl_decrypt aes_128_cbc dest src key iv

  unfoldable pub aes192cbc_decrypt : Bytes → Bytes → Bytes → Bytes → OsshResult (ℕ × Bytes)
  unfolding openssl_decrypt
  aes192cbc_decrypt dest src key iv = openssl_decrypt aes_192_cbc dest src key iv

  unfoldable pub aes256cbc_decrypt : Bytes → Bytes → Bytes → Bytes → OsshResult (ℕ × Bytes)
  unfolding openssl_decrypt
  aes256cbc_decrypt dest src key iv = openssl_decrypt aes_256_cbc dest src key iv

  unfoldable pub tdescbc_decrypt : Bytes → Bytes → Bytes → Bytes → OsshResult (ℕ × Bytes)
  unfolding openssl_decrypt
  tdescbc_decrypt dest src key iv = openssl_decrypt des_ede3_cbc dest src key iv

  unfoldable pub aes128ctr_decrypt : Bytes → Bytes → Bytes → Bytes → OsshResult (ℕ × Bytes)
  unfolding openssl_decrypt
  aes128ctr_decrypt dest src key iv = openssl_decrypt aes_128_ctr dest src key iv

  unfoldable pub aes192ctr_decrypt : Bytes → Bytes → Bytes → Bytes → OsshResult (ℕ × Bytes)
  unfolding openssl_decrypt
  aes192ctr_decrypt dest src key iv = openssl_decrypt aes_192_ctr dest src key iv

  unfoldable pub aes256ctr_decrypt : Bytes → Bytes → Bytes → Bytes → OsshResult (ℕ × Bytes)
  unfolding openssl_decrypt
  aes256ctr_decrypt dest src key iv = openssl_decrypt aes_256_ctr dest src key iv

  unfoldable pub openssl_impl : InternalImpl
  unfolding calc_buflen aes128cbc_encrypt aes192cbc_encrypt aes256cbc_encrypt tdescbc_encrypt
      aes128ctr_encrypt aes192ctr_encrypt aes256ctr_encrypt aes128cbc_decrypt aes192cbc_decrypt
      aes256cbc_decrypt tdescbc_decrypt aes128ctr_decrypt aes192ctr_decrypt aes256ctr_decrypt
  openssl_impl = record {
    calc_buflen = calc_buflen;
    aes128cbc_encrypt = aes128cbc_encrypt;
    aes192cbc_encrypt = aes192cbc_encrypt;
    aes256cbc_encrypt = aes256cbc_encrypt;
    tdescbc_encrypt = tdescbc_encrypt;
    aes128ctr_encrypt = aes128ctr_encrypt;
    aes192ctr_encrypt = aes192ctr_encrypt;
    aes256ctr_encrypt = aes256ctr_encrypt;
    aes128cbc_decrypt = aes128cbc_decrypt;
    aes192cbc_decrypt = aes192cbc_decrypt;
    aes256cbc_decrypt = aes256cbc_decrypt;
    tdescbc_decrypt = tdescbc_decrypt;
    aes128ctr_decrypt = aes128ctr_decrypt;
    aes192ctr_decrypt = aes192ctr_decrypt;
    aes256ctr_decrypt = aes256ctr_decrypt;
  }
