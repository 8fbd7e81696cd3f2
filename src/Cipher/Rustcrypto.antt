-- ===== src/Cipher/Rustcrypto.antt =====
-- src/cipher.rs: `internal_impl` with the feature `rustcrypto-cipher`.
use rust_osshkeys.Prelude.{ℕ, ◌+◌, ◌-◌, ◌%◌, Bytes, length, leb, if◌then◌else◌, ok, and_then}
use rust_osshkeys.Error.{
  OsshResult, fail, on_unit, invalid_length, from_key_length, from_pad, from_unpad, from_stream,
}
use rust_osshkeys.External.BlockModes.{BlockModes, BlockCipher, aes128, aes192, aes256, tdes_ede3}
use rust_osshkeys.Cipher.Impl.{overwrite, InternalImpl}

unfoldable pub calc_buflen : ℕ → ℕ → ℕ
calc_buflen len block_size = let addi = block_size - len % block_size in len + addi

module _ (bm : BlockModes) where
  unfoldable pub cbc_encrypt : BlockCipher → Bytes → Bytes → Bytes → Bytes → OsshResult (ℕ × Bytes)
  cbc_encrypt c dest src key iv =
      and_then (on_unit from_key_length (bm.new_encryptor c key iv)) (λ enc.
        and_then (on_unit from_pad (bm.encrypt_padded_b2b_mut enc src (length dest)))
          (λ out. ok (length out, overwrite out dest)))

  unfoldable pub cbc_decrypt : BlockCipher → Bytes → Bytes → Bytes → Bytes → OsshResult (ℕ × Bytes)
  cbc_decrypt c dest src key iv =
      and_then (on_unit from_key_length (bm.new_decryptor c key iv)) (λ dec.
        and_then (on_unit from_unpad (bm.decrypt_padded_b2b_mut dec src (length dest)))
          (λ p. ok (p.0, overwrite p.1 dest)))

  unfoldable pub ctr_endecrypt :
      BlockCipher → Bytes → Bytes → Bytes → Bytes → OsshResult (ℕ × Bytes)
  ctr_endecrypt c dest src key iv =
      if leb (length src) (length dest)
      then and_then (on_unit from_key_length (bm.new_stream c key iv)) (λ s.
        and_then (on_unit from_stream (bm.apply_keystream_b2b s src))
          (λ out. ok (length src, overwrite out dest)))
      else fail invalid_length

  unfoldable pub aes128cbc_encrypt : Bytes → Bytes → Bytes → Bytes → OsshResult (ℕ × Bytes)
  unfolding cbc_encrypt
  aes128cbc_encrypt dest src key iv = cbc_encrypt aes128 dest src key iv

  unfoldable pub aes192cbc_encrypt : Bytes → Bytes → Bytes → Bytes → OsshResult (ℕ × Bytes)
  unfolding cbc_encrypt
  aes192cbc_encrypt dest src key iv = cbc_encrypt aes192 dest src key iv

  unfoldable pub aes256cbc_encrypt : Bytes → Bytes → Bytes → Bytes → OsshResult (ℕ × Bytes)
  unfolding cbc_encrypt
  aes256cbc_encrypt dest src key iv = cbc_encrypt aes256 dest src key iv

  unfoldable pub tdescbc_encrypt : Bytes → Bytes → Bytes → Bytes → OsshResult (ℕ × Bytes)
  unfolding cbc_encrypt
  tdescbc_encrypt dest src key iv = cbc_encrypt tdes_ede3 dest src key iv

  unfoldable pub aes128ctr_encrypt : Bytes → Bytes → Bytes → Bytes → OsshResult (ℕ × Bytes)
  unfolding ctr_endecrypt
  aes128ctr_encrypt dest src key iv = ctr_endecrypt aes128 dest src key iv

  unfoldable pub aes192ctr_encrypt : Bytes → Bytes → Bytes → Bytes → OsshResult (ℕ × Bytes)
  unfolding ctr_endecrypt
  aes192ctr_encrypt dest src key iv = ctr_endecrypt aes192 dest src key iv

  unfoldable pub aes256ctr_encrypt : Bytes → Bytes → Bytes → Bytes → OsshResult (ℕ × Bytes)
  unfolding ctr_endecrypt
  aes256ctr_encrypt dest src key iv = ctr_endecrypt aes256 dest src key iv

  unfoldable pub aes128cbc_decrypt : Bytes → Bytes → Bytes → Bytes → OsshResult (ℕ × Bytes)
  unfolding cbc_decrypt
  aes128cbc_decrypt dest src key iv = cbc_decrypt aes128 dest src key iv

  unfoldable pub aes192cbc_decrypt : Bytes → Bytes → Bytes → Bytes → OsshResult (ℕ × Bytes)
  unfolding cbc_decrypt
  aes192cbc_decrypt dest src key iv = cbc_decrypt aes192 dest src key iv

  unfoldable pub aes256cbc_decrypt : Bytes → Bytes → Bytes → Bytes → OsshResult (ℕ × Bytes)
  unfolding cbc_decrypt
  aes256cbc_decrypt dest src key iv = cbc_decrypt aes256 dest src key iv

  unfoldable pub tdescbc_decrypt : Bytes → Bytes → Bytes → Bytes → OsshResult (ℕ × Bytes)
  unfolding cbc_decrypt
  tdescbc_decrypt dest src key iv = cbc_decrypt tdes_ede3 dest src key iv

  unfoldable pub aes128ctr_decrypt : Bytes → Bytes → Bytes → Bytes → OsshResult (ℕ × Bytes)
  unfolding ctr_endecrypt
  aes128ctr_decrypt dest src key iv = ctr_endecrypt aes128 dest src key iv

  unfoldable pub aes192ctr_decrypt : Bytes → Bytes → Bytes → Bytes → OsshResult (ℕ × Bytes)
  unfolding ctr_endecrypt
  aes192ctr_decrypt dest src key iv = ctr_endecrypt aes192 dest src key iv

  unfoldable pub aes256ctr_decrypt : Bytes → Bytes → Bytes → Bytes → OsshResult (ℕ × Bytes)
  unfolding ctr_endecrypt
  aes256ctr_decrypt dest src key iv = ctr_endecrypt aes256 dest src key iv

  unfoldable pub rustcrypto_impl : InternalImpl
  unfolding calc_buflen aes128cbc_encrypt aes192cbc_encrypt aes256cbc_encrypt tdescbc_encrypt
      aes128ctr_encrypt aes192ctr_encrypt aes256ctr_encrypt aes128cbc_decrypt aes192cbc_decrypt
      aes256cbc_decrypt tdescbc_decrypt aes128ctr_decrypt aes192ctr_decrypt aes256ctr_decrypt
  rustcrypto_impl = record {
    calc_buflen = calc_buflen;
    aes128cbc_encrypt = aes128cbc_encrypt;
    aes192cbc_encrypt = aes192cbc_encrypt;
    aes256cbc_encrypt = aes256cbc_encrypt;
    tdescbc_encrypt = tdescbc_encrypt;
    aes128ctr_encrypt = aes128ctr_encrypt;
    aes192ctr_encrypt = aes192ctr_encrypt;
    aes256ctr_encrypt = aes256ctr_encrypt;
    aes128cbc_decrypt = aes128cbc_decrypt;
    aes192cbc_decrypt = aes192cbc_decrypt;
    aes256cbc_decrypt = aes256cbc_decrypt;
    tdescbc_decrypt = tdescbc_decrypt;
    aes128ctr_decrypt = aes128ctr_decrypt;
    aes192ctr_decrypt = aes192ctr_decrypt;
    aes256ctr_decrypt = aes256ctr_decrypt;
  }
