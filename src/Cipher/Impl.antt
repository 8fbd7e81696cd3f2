-- ===== src/Cipher/Impl.antt =====
-- src/cipher.rs: what `Cipher` uses of `internal_impl`, of which a feature chooses one of two. A
-- destination slice is its bytes; a call returns how many bytes it wrote, and the slice.
use rust_osshkeys.Prelude.{
  ℕ, Bytes, ◌++◌, length, drop, take-append_left, length-append, length-drop, arith, ◌≡◌, ◌≤◌, ◌+◌,
  ◌%◌, take, ok,
}
use rust_osshkeys.Error.{OsshResult}
use rust_osshkeys.External.Crypters.{
  SymmCipher, aes_128_cbc, aes_192_cbc, aes_256_cbc, aes_128_ctr, aes_192_ctr, aes_256_ctr,
  des_ede3_cbc, symm_key_len, symm_iv_len, symm_block,
}

-- The bytes are written at the start, the rest of the slice stays.
abbrev pub overwrite : Bytes → Bytes → Bytes
overwrite bytes dest = bytes ++ drop (length bytes) dest

pub overwritten :
    (src dest : Bytes)
    → length src ≤ length dest
    → (take (length src) (overwrite src dest) ≡ src) × (length (overwrite src dest) ≡ length dest)
overwritten src dest h = (
  take-append_left src (drop (length src) dest),
  omega (arith, length-append src (drop (length src) dest), length-drop (length src) dest),
)

-- The arguments dest, src, key, iv.
abbrev pub CryptCall : Type 0
CryptCall = Bytes → Bytes → Bytes → Bytes → OsshResult (ℕ × Bytes)

pub record InternalImpl : Type 0 where
  pub calc_buflen : ℕ → ℕ → ℕ
  pub aes128cbc_encrypt : CryptCall
  pub aes192cbc_encrypt : CryptCall
  pub aes256cbc_encrypt : CryptCall
  pub tdescbc_encrypt : CryptCall
  pub aes128ctr_encrypt : CryptCall
  pub aes192ctr_encrypt : CryptCall
  pub aes256ctr_encrypt : CryptCall
  pub aes128cbc_decrypt : CryptCall
  pub aes192cbc_decrypt : CryptCall
  pub aes256cbc_decrypt : CryptCall
  pub tdescbc_decrypt : CryptCall
  pub aes128ctr_decrypt : CryptCall
  pub aes192ctr_decrypt : CryptCall
  pub aes256ctr_decrypt : CryptCall

-- The function that encrypts with an algorithm.
abbrev pub encrypt_with : InternalImpl → SymmCipher → CryptCall
encrypt_with impl aes_128_cbc = impl.aes128cbc_encrypt
encrypt_with impl aes_192_cbc = impl.aes192cbc_encrypt
encrypt_with impl aes_256_cbc = impl.aes256cbc_encrypt
encrypt_with impl des_ede3_cbc = impl.tdescbc_encrypt
encrypt_with impl aes_128_ctr = impl.aes128ctr_encrypt
encrypt_with impl aes_192_ctr = impl.aes192ctr_encrypt
encrypt_with impl aes_256_ctr = impl.aes256ctr_encrypt

-- The function that decrypts with an algorithm.
abbrev pub decrypt_with : InternalImpl → SymmCipher → CryptCall
decrypt_with impl aes_128_cbc = impl.aes128cbc_decrypt
decrypt_with impl aes_192_cbc = impl.aes192cbc_decrypt
decrypt_with impl aes_256_cbc = impl.aes256cbc_decrypt
decrypt_with impl des_ede3_cbc = impl.tdescbc_decrypt
decrypt_with impl aes_128_ctr = impl.aes128ctr_decrypt
decrypt_with impl aes_192_ctr = impl.aes192ctr_decrypt
decrypt_with impl aes_256_ctr = impl.aes256ctr_decrypt

-- What a backend promises, with the ciphertexts of the algorithms: with a key and an initialisation
-- vector of the right sizes, and a slice of the size that it asks for, each call succeeds and stays
-- within the slice.
pub record Implements (impl : InternalImpl) (encrypted : SymmCipher → Bytes → Bytes → Bytes → Bytes)
    : Type 0 where
  pub room_enough : (len block : ℕ) → len ≤ impl.calc_buflen len block
  pub room_bounded : (len block : ℕ) → impl.calc_buflen len block ≤ len + block
  pub encrypts :
      (c : SymmCipher) (dest src key iv : Bytes)
      → length key ≡ symm_key_len c
      → length iv ≡ symm_iv_len c
      → length dest ≡ impl.calc_buflen (length src) (symm_block c)
      → (encrypt_with impl c dest src key iv
          ≡ ok (length (encrypted c key iv src), overwrite (encrypted c key iv src) dest))
        × (length (encrypted c key iv src) ≤ length dest)
  pub decrypts :
      (c : SymmCipher) (dest src key iv : Bytes)
      → length key ≡ symm_key_len c
      → length iv ≡ symm_iv_len c
      → length dest ≡ impl.calc_buflen (length (encrypted c key iv src)) (symm_block c)
      → (filled : Bytes) × (decrypt_with impl c dest (encrypted c key iv src) key iv
          ≡ ok (length src, filled))
        × (take (length src) filled ≡ src)
        × (length filled ≡ length dest)
  -- Whole blocks stay whole blocks, and nothing is lost.
  pub whole_blocks :
      (c : SymmCipher) (key iv src : Bytes)
      → length src % symm_block c ≡ 0
      → (length (encrypted c key iv src) % symm_block c ≡ 0)
        × (length src ≤ length (encrypted c key iv src))
