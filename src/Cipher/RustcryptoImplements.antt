-- ===== src/Cipher/RustcryptoImplements.antt =====
-- The backend on RustCrypto, against the specification in Cipher/Impl.
use rust_osshkeys.Prelude.{
  ◌%◌, ◌≤◌, ◌≡◌, sym, ap, ◌∙◌, arith, refl, Bytes, length, take, take-append_le, ok, leb, true,
}
use rust_osshkeys.External.Crypters.{
  SymmCipher, symm_key_len, symm_iv_len, symm_block, aes_128_cbc, aes_192_cbc, aes_256_cbc,
  aes_128_ctr, aes_192_ctr, aes_256_ctr, des_ede3_cbc,
}
use rust_osshkeys.External.BlockModes.{
  BlockModes, BlockCipher, aes128, aes192, aes256, tdes_ede3, cipher_key_len, cipher_block,
}
use rust_osshkeys.Cipher.Impl.{
  CryptCall, overwrite, overwritten, Implements, encrypt_with, decrypt_with,
}
use rust_osshkeys.Cipher.Rustcrypto.{
  cbc_encrypt, cbc_decrypt, ctr_endecrypt, rustcrypto_impl, calc_buflen, aes128cbc_encrypt,
  aes192cbc_encrypt, aes256cbc_encrypt, tdescbc_encrypt, aes128ctr_encrypt, aes192ctr_encrypt,
  aes256ctr_encrypt, aes128cbc_decrypt, aes192cbc_decrypt, aes256cbc_decrypt, tdescbc_decrypt,
  aes128ctr_decrypt, aes192ctr_decrypt, aes256ctr_decrypt,
}

module _ (bm : BlockModes) where
  -- The ciphertexts of the algorithms.
  abbrev pub rustcrypto_encrypted : SymmCipher → Bytes → Bytes → Bytes → Bytes
  rustcrypto_encrypted aes_128_cbc = bm.cbc_encrypted aes128
  rustcrypto_encrypted aes_192_cbc = bm.cbc_encrypted aes192
  rustcrypto_encrypted aes_256_cbc = bm.cbc_encrypted aes256
  rustcrypto_encrypted des_ede3_cbc = bm.cbc_encrypted tdes_ede3
  rustcrypto_encrypted aes_128_ctr = bm.ctr_applied aes128
  rustcrypto_encrypted aes_192_ctr = bm.ctr_applied aes192
  rustcrypto_encrypted aes_256_ctr = bm.ctr_applied aes256

  -- What an encryption must return.
  abbrev Encrypted : CryptCall → Bytes → Bytes → Bytes → Bytes → Bytes → Type 0
  Encrypted call dest src key iv out =
      (call dest src key iv ≡ ok (length out, overwrite out dest)) × (length out ≤ length dest)

  -- What a decryption of `out` must return.
  abbrev Decrypted : CryptCall → Bytes → Bytes → Bytes → Bytes → Bytes → Type 0
  Decrypted call dest src key iv out =
      (filled : Bytes) × (call dest out key iv ≡ ok (length src, filled))
      × (take (length src) filled ≡ src)
      × (length filled ≡ length dest)

  module _ (c : BlockCipher) (dest src key iv : Bytes) (hk : length key ≡ cipher_key_len c)
      (hi : length iv ≡ cipher_block c) where
    cbc_encrypt_lem :
        length dest ≡ calc_buflen (length src) (cipher_block c)
        → Encrypted (cbc_encrypt bm c) dest src key iv (bm.cbc_encrypted c key iv src)
    unfolding cbc_encrypt calc_buflen
    cbc_encrypt_lem hd =
        let size = bm.length-cbc_encrypted c key iv src in
        let (enc, made, run) = bm.cbc_encrypts c key iv src (length dest) hk hi (omega arith) in
        (rw (made, run) refl, omega (arith, size, hd))

    cbc_decrypt_lem :
        length dest ≡ calc_buflen (length (bm.cbc_encrypted c key iv src)) (cipher_block c)
        → Decrypted (cbc_decrypt bm c) dest src key iv (bm.cbc_encrypted c key iv src)
    unfolding cbc_decrypt calc_buflen
    cbc_decrypt_lem hd =
        let size = bm.length-cbc_encrypted c key iv src in
        let (dec, written, made, run, text, all) =
          bm.cbc_decrypts c key iv src (length dest) hk hi (omega arith) in
        let (_, kept) = overwritten written dest (omega (arith, all, hd)) in
        (
          overwrite written dest,
          rw (made, run) refl,
          take-append_le (length src) written _ (omega (arith, all, size)) ∙ text,
          kept,
        )

    ctr_encrypt_lem :
        length dest ≡ calc_buflen (length src) (cipher_block c)
        → Encrypted (ctr_endecrypt bm c) dest src key iv (bm.ctr_applied c key iv src)
    unfolding ctr_endecrypt calc_buflen
    ctr_encrypt_lem hd =
        let size = bm.length-ctr_applied c key iv src in
        let (s, made, run, _) = bm.ctr_applies c key iv src hk hi in
        let room : leb (length src) (length dest) ≡ true = ground (arith, hd) in
        (
          rw (room, made, run)
              (ap (λ n. ok (n, overwrite (bm.ctr_applied c key iv src) dest)) (sym size)),
          omega (arith, size, hd),
        )

    ctr_decrypt_lem :
        length dest ≡ calc_buflen (length (bm.ctr_applied c key iv src)) (cipher_block c)
        → Decrypted (ctr_endecrypt bm c) dest src key iv (bm.ctr_applied c key iv src)
    unfolding ctr_endecrypt calc_buflen
    ctr_decrypt_lem hd =
        let size = bm.length-ctr_applied c key iv src in
        let (s, made, _, run) = bm.ctr_applies c key iv src hk hi in
        let room : leb (length (bm.ctr_applied c key iv src)) (length dest) ≡ true =
          ground (arith, hd) in
        let (text, kept) = overwritten src dest (omega (arith, size, hd)) in
        (
          overwrite src dest,
          rw (room, made, run) (ap (λ n. ok (n, overwrite src dest)) size),
          text,
          kept,
        )

  module _ (dest src key iv : Bytes) where
    encrypts :
        (c : SymmCipher)
        → length key ≡ symm_key_len c
        → length iv ≡ symm_iv_len c
        → length dest ≡ calc_buflen (length src) (symm_block c)
        → Encrypted
            (encrypt_with (rustcrypto_impl bm) c)
            dest
            src
            key
            iv
            (rustcrypto_encrypted c key iv src)
    unfolding rustcrypto_impl aes128cbc_encrypt aes192cbc_encrypt aes256cbc_encrypt tdescbc_encrypt
        aes128ctr_encrypt aes192ctr_encrypt aes256ctr_encrypt
    encrypts aes_128_cbc = cbc_encrypt_lem aes128 dest src key iv
    encrypts aes_192_cbc = cbc_encrypt_lem aes192 dest src key iv
    encrypts aes_256_cbc = cbc_encrypt_lem aes256 dest src key iv
    encrypts des_ede3_cbc = cbc_encrypt_lem tdes_ede3 dest src key iv
    encrypts aes_128_ctr = ctr_encrypt_lem aes128 dest src key iv
    encrypts aes_192_ctr = ctr_encrypt_lem aes192 dest src key iv
    encrypts aes_256_ctr = ctr_encrypt_lem aes256 dest src key iv

    decrypts :
        (c : SymmCipher)
        → length key ≡ symm_key_len c
        → length iv ≡ symm_iv_len c
        → length dest ≡ calc_buflen (length (rustcrypto_encrypted c key iv src)) (symm_block c)
        → Decrypted
            (decrypt_with (rustcrypto_impl bm) c)
            dest
            src
            key
            iv
            (rustcrypto_encrypted c key iv src)
    unfolding rustcrypto_impl aes128cbc_decrypt aes192cbc_decrypt aes256cbc_decrypt tdescbc_decrypt
        aes128ctr_decrypt aes192ctr_decrypt aes256ctr_decrypt
    decrypts aes_128_cbc = cbc_decrypt_lem aes128 dest src key iv
    decrypts aes_192_cbc = cbc_decrypt_lem aes192 dest src key iv
    decrypts aes_256_cbc = cbc_decrypt_lem aes256 dest src key iv
    decrypts des_ede3_cbc = cbc_decrypt_lem tdes_ede3 dest src key iv
    decrypts aes_128_ctr = ctr_decrypt_lem aes128 dest src key iv
    decrypts aes_192_ctr = ctr_decrypt_lem aes192 dest src key iv
    decrypts aes_256_ctr = ctr_decrypt_lem aes256 dest src key iv

  padded_blocks :
      (c : BlockCipher) (key iv src : Bytes)
      → length src % cipher_block c ≡ 0
      → (length (bm.cbc_encrypted c key iv src) % cipher_block c ≡ 0)
        × (length src ≤ length (bm.cbc_encrypted c key iv src))
  padded_blocks aes128 key iv src h =
      let size = bm.length-cbc_encrypted aes128 key iv src in
      (omega (arith, size, h), omega (arith, size))
  padded_blocks aes192 key iv src h =
      let size = bm.length-cbc_encrypted aes192 key iv src in
      (omega (arith, size, h), omega (arith, size))
  padded_blocks aes256 key iv src h =
      let size = bm.length-cbc_encrypted aes256 key iv src in
      (omega (arith, size, h), omega (arith, size))
  padded_blocks tdes_ede3 key iv src h =
      let size = bm.length-cbc_encrypted tdes_ede3 key iv src in
      (omega (arith, size, h), omega (arith, size))

  applied_blocks :
      (c : BlockCipher) (key iv src : Bytes)
      → length src % 16 ≡ 0
      → (length (bm.ctr_applied c key iv src) % 16 ≡ 0)
        × (length src ≤ length (bm.ctr_applied c key iv src))
  applied_blocks c key iv src h =
      let size = bm.length-ctr_applied c key iv src in
      (ap (λ n. n % 16) size ∙ h, omega (arith, size))

  whole_blocks :
      (c : SymmCipher) (key iv src : Bytes)
      → length src % symm_block c ≡ 0
      → (length (rustcrypto_encrypted c key iv src) % symm_block c ≡ 0)
        × (length src ≤ length (rustcrypto_encrypted c key iv src))
  whole_blocks aes_128_cbc = padded_blocks aes128
  whole_blocks aes_192_cbc = padded_blocks aes192
  whole_blocks aes_256_cbc = padded_blocks aes256
  whole_blocks des_ede3_cbc = padded_blocks tdes_ede3
  whole_blocks aes_128_ctr = applied_blocks aes128
  whole_blocks aes_192_ctr = applied_blocks aes192
  whole_blocks aes_256_ctr = applied_blocks aes256

  -- The backend on RustCrypto meets the promises of a backend.
  pub rustcrypto-Implements : Implements (rustcrypto_impl bm) rustcrypto_encrypted
  unfolding rustcrypto_impl calc_buflen
  rustcrypto-Implements = record {
    room_enough = λ len block. omega arith;
    room_bounded = λ len block. omega arith;
    encrypts = λ c dest src key iv. encrypts dest src key iv c;
    decrypts = λ c dest src key iv. decrypts dest src key iv c;
    whole_blocks = whole_blocks;
  }
