-- ===== src/Cipher/OpensslImplements.antt =====
-- The backend on OpenSSL, against the specification in Cipher/Impl.
use rust_osshkeys.Prelude.{
  ◌≤◌, ◌≡◌, sym, ap, ◌∙◌, arith, refl, Bytes, ◌++◌, length, length-append, ok, ltb, false,
}
use rust_osshkeys.External.Crypters.{
  Crypters, SymmCipher, Mode, Runs, aes_128_cbc, aes_192_cbc, aes_256_cbc, aes_128_ctr, aes_192_ctr,
  aes_256_ctr, des_ede3_cbc,
}
use rust_osshkeys.Cipher.Impl.{overwrite, overwritten, Implements, encrypt_with, decrypt_with}
use rust_osshkeys.Cipher.Openssl.{
  openssl_crypt, openssl_encrypt, openssl_decrypt, openssl_impl, calc_buflen, aes128cbc_encrypt,
  aes192cbc_encrypt, aes256cbc_encrypt, tdescbc_encrypt, aes128ctr_encrypt, aes192ctr_encrypt,
  aes256ctr_encrypt, aes128cbc_decrypt, aes192cbc_decrypt, aes256cbc_decrypt, tdescbc_decrypt,
  aes128ctr_decrypt, aes192ctr_decrypt, aes256ctr_decrypt,
}

module _ (cr : Crypters) where
  openssl_crypt_lem :
      (m : Mode) (c : SymmCipher) (dest src key iv out : Bytes)
      → Runs cr.Crypter cr.new cr.update cr.finalize c m key iv src out (length dest)
      → openssl_crypt cr m c dest src key iv ≡ ok (length out, overwrite out dest)
  unfolding openssl_crypt
  openssl_crypt_lem m c dest src key iv out r =
      let size = length-append r.first r.last in
      let room : ltb (length dest) (length r.first) ≡ false =
        ground (arith, size, ap length r.all, r.fits) in
      rw (r.made, r.fed, room, r.ended)
        (ap (λ n. ok (n, overwrite (r.first ++ r.last) dest)) (sym size)
          ∙ ap (λ o. ok (length o, overwrite o dest)) r.all)

  run_lem :
      (m : Mode) (c : SymmCipher) (dest src key iv out : Bytes)
      → Runs cr.Crypter cr.new cr.update cr.finalize c m key iv src out (length dest)
      → (openssl_crypt cr m c dest src key iv ≡ ok (length out, overwrite out dest))
        × (length out ≤ length dest)
  run_lem m c dest src key iv out r = (openssl_crypt_lem m c dest src key iv out r, r.fits)

  -- Every function that encrypts is the same call.
  encrypt_with_lem :
      (c : SymmCipher) (dest src key iv : Bytes)
      → encrypt_with (openssl_impl cr) c dest src key iv
        ≡ openssl_crypt cr Mode.encrypt c dest src key iv
  unfolding openssl_impl openssl_encrypt aes128cbc_encrypt aes192cbc_encrypt aes256cbc_encrypt
      aes128ctr_encrypt aes192ctr_encrypt aes256ctr_encrypt tdescbc_encrypt
  encrypt_with_lem aes_128_cbc dest src key iv = refl
  encrypt_with_lem aes_192_cbc dest src key iv = refl
  encrypt_with_lem aes_256_cbc dest src key iv = refl
  encrypt_with_lem aes_128_ctr dest src key iv = refl
  encrypt_with_lem aes_192_ctr dest src key iv = refl
  encrypt_with_lem aes_256_ctr dest src key iv = refl
  encrypt_with_lem des_ede3_cbc dest src key iv = refl

  -- Every function that decrypts is the same call.
  decrypt_with_lem :
      (c : SymmCipher) (dest src key iv : Bytes)
      → decrypt_with (openssl_impl cr) c dest src key iv
        ≡ openssl_crypt cr Mode.decrypt c dest src key iv
  unfolding openssl_impl openssl_decrypt aes128cbc_decrypt aes192cbc_decrypt aes256cbc_decrypt
      aes128ctr_decrypt aes192ctr_decrypt aes256ctr_decrypt tdescbc_decrypt
  decrypt_with_lem aes_128_cbc dest src key iv = refl
  decrypt_with_lem aes_192_cbc dest src key iv = refl
  decrypt_with_lem aes_256_cbc dest src key iv = refl
  decrypt_with_lem aes_128_ctr dest src key iv = refl
  decrypt_with_lem aes_192_ctr dest src key iv = refl
  decrypt_with_lem aes_256_ctr dest src key iv = refl
  decrypt_with_lem des_ede3_cbc dest src key iv = refl

  -- The backend on OpenSSL meets the promises of a backend.
  pub openssl-Implements : Implements (openssl_impl cr) cr.encrypted
  unfolding openssl_impl calc_buflen
  openssl-Implements = record {
    room_enough = λ len block. omega arith;
    room_bounded = λ len block. omega arith;
    encrypts = λ c dest src key iv hk hi hd.
        let (e, fits) =
          run_lem Mode.encrypt c dest src key iv _
            (cr.encrypts c key iv src _ hk hi (omega (arith, hd))) in
        (encrypt_with_lem c dest src key iv ∙ e, fits);
    decrypts = λ c dest src key iv hk hi hd.
        let (e, fits) =
          run_lem Mode.decrypt c dest _ key iv _
            (cr.decrypts c key iv src _ hk hi (omega (arith, hd))) in
        let (text, size) = overwritten src dest fits in
        (_, decrypt_with_lem c dest _ key iv ∙ e, text, size);
    whole_blocks = cr.encrypted_blocks;
  }
