-- ===== src/Cipher/RoundTrip.antt =====
-- src/cipher.rs: `decrypt` after `encrypt`, over the choice of the backend.
use rust_osshkeys.Prelude.{
  refl, ◌≤◌, ◌%◌, leb, true, ℕ, ◌+◌, ◌≡◌, ap, ◌∙◌, arith, Bytes, length, take, take-append_left,
  length-replicate, ok, and_then, Option, none, some,
}
use rust_osshkeys.Error.{OsshResult}
use rust_osshkeys.External.Crypters.{
  SymmCipher, aes_128_cbc, aes_192_cbc, aes_256_cbc, aes_128_ctr, aes_192_ctr, aes_256_ctr,
  des_ede3_cbc,
}
use rust_osshkeys.Cipher.Table.{
  Cipher, aes128_cbc, aes192_cbc, aes256_cbc, aes128_ctr, aes192_ctr, aes256_ctr, tdes_cbc, null,
  key_len, iv_len, block_size,
}
use rust_osshkeys.Cipher.Impl.{overwrite, overwritten, CryptCall}
use rust_osshkeys.Cipher.Backend.{Backend, encrypted, implements}
use rust_osshkeys.Cipher.Crypt.{encrypt, decrypt, copy_to, encrypt_to, decrypt_to, calc_buffer_len}

-- The algorithm behind each cipher, and none behind `null`.
abbrev pub symm : Cipher → Option SymmCipher
symm aes128_cbc = some aes_128_cbc
symm aes192_cbc = some aes_192_cbc
symm aes256_cbc = some aes_256_cbc
symm aes128_ctr = some aes_128_ctr
symm aes192_ctr = some aes_192_ctr
symm aes256_ctr = some aes_256_ctr
symm tdes_cbc = some des_ede3_cbc
symm null = none

copy_lem :
    (dest src : Bytes)
    → length src ≤ length dest
    → (copy_to dest src ≡ ok (length src, overwrite src dest)) × (length src ≤ length dest)
unfolding copy_to
copy_lem dest src h =
    let room : leb (length src) (length dest) ≡ true = ground arith in (rw room refl, h)

abbrev kept : ℕ × Bytes → OsshResult Bytes
kept p = ok (take p.0 p.1)

-- The truncation of a buffer that starts with the result.
truncated :
    (m : OsshResult (ℕ × Bytes)) (out filled : Bytes)
    → m ≡ ok (length out, filled)
    → take (length out) filled ≡ out
    → and_then m kept ≡ ok out
truncated m out filled h t = rw h (ap ok t)

module _ (b : Backend) where
  -- The ciphertext.
  abbrev pub ciphertext : Option SymmCipher → Bytes → Bytes → Bytes → Bytes
  ciphertext none key iv src = src
  ciphertext (some c) key iv src = encrypted b c key iv src

  -- A call that fills the start of `dest` with the text.
  abbrev Fills : CryptCall → Bytes → Bytes → Bytes → Bytes → Bytes → Type 0
  Fills call dest out key iv src =
      (filled : Bytes) × (call dest out key iv ≡ ok (length src, filled))
      × (take (length src) filled ≡ src)
      × (length filled ≡ length dest)

  copy_Fills :
      (dest src key iv : Bytes)
      → length src ≤ length dest
      → Fills (λ d s k i. copy_to d s) dest src key iv src
  copy_Fills dest src key iv h =
      let (text, size) = overwritten src dest h in
      (overwrite src dest, (copy_lem dest src h).0, text, size)

  -- Any backend asks for as much room as the text needs, and for a block more at most.
  pub buffer_len :
      (c : Cipher) (len : ℕ)
      → (len ≤ calc_buffer_len b c len) × (calc_buffer_len b c len ≤ len + block_size c)
  unfolding calc_buffer_len
  buffer_len c len = (
    (implements b).room_enough len (block_size c),
    (implements b).room_bounded len (block_size c),
  )

  module _ (src key iv : Bytes) where
    -- With a key and an initialisation vector of the right size, `encrypt_to` writes the ciphertext
    -- to the start of a buffer of the size that it asks for.
    encrypt_to_lem :
        (c : Cipher) (dest : Bytes)
        → length key ≡ key_len c
        → length iv ≡ iv_len c
        → length dest ≡ calc_buffer_len b c (length src)
        → (encrypt_to b c dest src key iv
            ≡ ok (
              length (ciphertext (symm c) key iv src),
              overwrite (ciphertext (symm c) key iv src) dest,
            ))
          × (length (ciphertext (symm c) key iv src) ≤ length dest)
    unfolding encrypt_to calc_buffer_len key_len iv_len block_size
    encrypt_to_lem null dest hk hi hd =
        copy_lem dest src (omega (arith, (implements b).room_enough (length src) 8, hd))
    encrypt_to_lem aes128_cbc dest hk hi hd =
        (implements b).encrypts aes_128_cbc dest src key iv hk hi hd
    encrypt_to_lem aes192_cbc dest hk hi hd =
        (implements b).encrypts aes_192_cbc dest src key iv hk hi hd
    encrypt_to_lem aes256_cbc dest hk hi hd =
        (implements b).encrypts aes_256_cbc dest src key iv hk hi hd
    encrypt_to_lem aes128_ctr dest hk hi hd =
        (implements b).encrypts aes_128_ctr dest src key iv hk hi hd
    encrypt_to_lem aes192_ctr dest hk hi hd =
        (implements b).encrypts aes_192_ctr dest src key iv hk hi hd
    encrypt_to_lem aes256_ctr dest hk hi hd =
        (implements b).encrypts aes_256_ctr dest src key iv hk hi hd
    encrypt_to_lem tdes_cbc dest hk hi hd =
        (implements b).encrypts des_ede3_cbc dest src key iv hk hi hd

    -- `decrypt_to` writes the text to the start of a buffer of the size that it asks for.
    pub decrypt_to_lem :
        (c : Cipher) (dest : Bytes)
        → length key ≡ key_len c
        → length iv ≡ iv_len c
        → length dest ≡ calc_buffer_len b c (length (ciphertext (symm c) key iv src))
        → Fills (decrypt_to b c) dest (ciphertext (symm c) key iv src) key iv src
    unfolding decrypt_to calc_buffer_len key_len iv_len block_size
    decrypt_to_lem null dest hk hi hd =
        copy_Fills dest src key iv (omega (arith, (implements b).room_enough (length src) 8, hd))
    decrypt_to_lem aes128_cbc dest hk hi hd =
        (implements b).decrypts aes_128_cbc dest src key iv hk hi hd
    decrypt_to_lem aes192_cbc dest hk hi hd =
        (implements b).decrypts aes_192_cbc dest src key iv hk hi hd
    decrypt_to_lem aes256_cbc dest hk hi hd =
        (implements b).decrypts aes_256_cbc dest src key iv hk hi hd
    decrypt_to_lem aes128_ctr dest hk hi hd =
        (implements b).decrypts aes_128_ctr dest src key iv hk hi hd
    decrypt_to_lem aes192_ctr dest hk hi hd =
        (implements b).decrypts aes_192_ctr dest src key iv hk hi hd
    decrypt_to_lem aes256_ctr dest hk hi hd =
        (implements b).decrypts aes_256_ctr dest src key iv hk hi hd
    decrypt_to_lem tdes_cbc dest hk hi hd =
        (implements b).decrypts des_ede3_cbc dest src key iv hk hi hd

    pub encrypt_lem :
        (c : Cipher)
        → length key ≡ key_len c
        → length iv ≡ iv_len c
        → (encrypt b c src key iv ≡ ok (ciphertext (symm c) key iv src))
          × (length (ciphertext (symm c) key iv src) ≤ length src + block_size c)
    unfolding encrypt
    encrypt_lem c hk hi =
        let size = length-replicate {A = ℕ} (calc_buffer_len b c (length src)) 0 in
        let (e, fits) = encrypt_to_lem c _ hk hi size in
        let (_, bound) = buffer_len c (length src) in
        (
          truncated _ _ _ e (take-append_left (ciphertext (symm c) key iv src) _),
          omega (arith, size, fits, bound),
        )

    pub decrypt_lem :
        (c : Cipher)
        → length key ≡ key_len c
        → length iv ≡ iv_len c
        → decrypt b c (ciphertext (symm c) key iv src) key iv ≡ ok src
    unfolding decrypt
    decrypt_lem c hk hi =
        let (_, e, text, _) =
          decrypt_to_lem c _ hk hi
            (length-replicate (calc_buffer_len b c (length (ciphertext (symm c) key iv src))) 0) in
        truncated _ _ _ e text

    -- Whole blocks are encrypted to whole blocks, and to as many at least.
    pub ciphertext_blocks :
        (c : Cipher)
        → length src % block_size c ≡ 0
        → (length (ciphertext (symm c) key iv src) % block_size c ≡ 0)
          × (length src ≤ length (ciphertext (symm c) key iv src))
    unfolding block_size
    ciphertext_blocks null h = (h, omega arith)
    ciphertext_blocks aes128_cbc h = (implements b).whole_blocks aes_128_cbc key iv src h
    ciphertext_blocks aes192_cbc h = (implements b).whole_blocks aes_192_cbc key iv src h
    ciphertext_blocks aes256_cbc h = (implements b).whole_blocks aes_256_cbc key iv src h
    ciphertext_blocks aes128_ctr h = (implements b).whole_blocks aes_128_ctr key iv src h
    ciphertext_blocks aes192_ctr h = (implements b).whole_blocks aes_192_ctr key iv src h
    ciphertext_blocks aes256_ctr h = (implements b).whole_blocks aes_256_ctr key iv src h
    ciphertext_blocks tdes_cbc h = (implements b).whole_blocks des_ede3_cbc key iv src h

    -- With a key and an initialisation vector of the sizes of the cipher, encryption succeeds, and
    -- decryption of its result succeeds and returns the text, for every cipher and with either
    -- backend.
    pub decrypt-encrypt :
        (c : Cipher)
        → length key ≡ key_len c
        → length iv ≡ iv_len c
        → (out : Bytes) × (encrypt b c src key iv ≡ ok out) × (decrypt b c out key iv ≡ ok src)
    decrypt-encrypt c hk hi = (_, (encrypt_lem c hk hi).0, decrypt_lem c hk hi)

-- Two backends whose ciphertexts are the same.
abbrev pub Agree : Backend → Backend → Type 0
Agree a b =
    (c : SymmCipher) (key iv src : Bytes) → encrypted a c key iv src ≡ encrypted b c key iv src

agreed :
    (a b : Backend) (h : Agree a b) (c : Option SymmCipher) (key iv src : Bytes)
    → ciphertext a c key iv src ≡ ciphertext b c key iv src
agreed a b h none key iv src = refl
agreed a b h (some c) key iv src = h c key iv src

-- If two backends make the same ciphertexts, each decrypts what the other has encrypted, with a key
-- and an initialisation vector of the sizes of the cipher.
pub decrypt-encrypt_across :
    (a b : Backend) (c : Cipher) (src key iv : Bytes)
    → Agree a b
    → length key ≡ key_len c
    → length iv ≡ iv_len c
    → (out : Bytes) × (encrypt a c src key iv ≡ ok out) × (decrypt b c out key iv ≡ ok src)
decrypt-encrypt_across a b c src key iv h hk hi = (
  ciphertext b (symm c) key iv src,
  (encrypt_lem a src key iv c hk hi).0 ∙ ap ok (agreed a b h (symm c) key iv src),
  decrypt_lem b src key iv c hk hi,
)
