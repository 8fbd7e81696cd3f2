-- ===== src/External/Crypters.antt =====
-- `openssl::symm::Crypter`, which works on a slice with room for a number of bytes and returns how
-- many it wrote, here these bytes; and `bcrypt_pbkdf`.
use rust_osshkeys.Prelude.{ℕ, ◌+◌, ◌-◌, ◌%◌, ◌≤◌, ◌≡◌, Bytes, ◌++◌, length, Outcome, ok}
use rust_osshkeys.Error.{BcryptError}

-- `openssl::symm::Cipher`, as far as the crate names its values.
pub data SymmCipher : Type 0 where
  aes_128_cbc aes_192_cbc aes_256_cbc aes_128_ctr aes_192_ctr aes_256_ctr des_ede3_cbc : SymmCipher

pub data Mode : Type 0 where
  encrypt decrypt : Mode

-- The key, the initialisation vector and the block of the algorithm, in bytes.
abbrev pub symm_key_len : SymmCipher → ℕ
symm_key_len aes_128_cbc = 16
symm_key_len aes_128_ctr = 16
symm_key_len aes_256_cbc = 32
symm_key_len aes_256_ctr = 32
symm_key_len _ = 24

abbrev pub symm_iv_len : SymmCipher → ℕ
symm_iv_len des_ede3_cbc = 8
symm_iv_len _ = 16

abbrev pub symm_block : SymmCipher → ℕ
symm_block des_ede3_cbc = 8
symm_block _ = 16

module _ (Crypter : Type 0) (new : SymmCipher → Mode → Bytes → Bytes → Outcome Unit Crypter)
    (update : Crypter → Bytes → ℕ → Outcome Unit (Bytes × Crypter))
    (finalize : Crypter → ℕ → Outcome Unit Bytes) where
  -- Given room for one block more than the input, the three calls succeed and write `out`.
  pub record Runs (c : SymmCipher) (m : Mode) (key iv src out : Bytes) (room : ℕ) : Type 0 where
    pub crypter : Crypter
    pub updated : Crypter
    pub first : Bytes
    pub last : Bytes
    pub made : new c m key iv ≡ ok crypter
    pub fed : update crypter src room ≡ ok (first, updated)
    pub ended : finalize updated (room - length first) ≡ ok last
    pub all : first ++ last ≡ out
    pub fits : length out ≤ room

pub record Crypters : Type 1 where
  pub Crypter : Type 0
  pub new : SymmCipher → Mode → Bytes → Bytes → Outcome Unit Crypter
  pub update : Crypter → Bytes → ℕ → Outcome Unit (Bytes × Crypter)
  pub finalize : Crypter → ℕ → Outcome Unit Bytes
  -- What the encryption of `src` consists of.
  pub encrypted : SymmCipher → Bytes → Bytes → Bytes → Bytes
  pub encrypts :
      (c : SymmCipher) (key iv src : Bytes) (room : ℕ)
      → length key ≡ symm_key_len c
      → length iv ≡ symm_iv_len c
      → length src + symm_block c ≤ room
      → Runs Crypter new update finalize c encrypt key iv src (encrypted c key iv src) room
  pub decrypts :
      (c : SymmCipher) (key iv src : Bytes) (room : ℕ)
      → length key ≡ symm_key_len c
      → length iv ≡ symm_iv_len c
      → length (encrypted c key iv src) + symm_block c ≤ room
      → Runs Crypter new update finalize c decrypt key iv (encrypted c key iv src) src room
  -- Whole blocks stay whole blocks, and nothing is lost.
  pub encrypted_blocks :
      (c : SymmCipher) (key iv src : Bytes)
      → length src % symm_block c ≡ 0
      → (length (encrypted c key iv src) % symm_block c ≡ 0)
        × (length src ≤ length (encrypted c key iv src))

-- `bcrypt_pbkdf`.
pub record Kdfs : Type 0 where
  pub bcrypt_pbkdf : Bytes → Bytes → ℕ → ℕ → Outcome BcryptError Bytes
  pub length-bcrypt_pbkdf :
      (pass salt : Bytes) (rounds n : ℕ) (key : Bytes)
      → bcrypt_pbkdf pass salt rounds n ≡ ok key
      → length key ≡ n
