-- ===== src/External/BlockModes.antt =====
-- RustCrypto: `cbc` and `ctr` over the block ciphers of `aes` and `des`. A call that writes to a
-- slice gets how much room there is, and returns what it writes.
use rust_osshkeys.Prelude.{ℕ, ◌+◌, ◌-◌, ◌%◌, ◌≤◌, ◌≡◌, Bytes, length, take, Outcome, ok}

-- The block ciphers that the crate names.
pub data BlockCipher : Type 0 where
  aes128 aes192 aes256 tdes_ede3 : BlockCipher

abbrev pub cipher_key_len : BlockCipher → ℕ
cipher_key_len aes128 = 16
cipher_key_len aes256 = 32
cipher_key_len _ = 24

abbrev pub cipher_block : BlockCipher → ℕ
cipher_block tdes_ede3 = 8
cipher_block _ = 16

-- With PKCS#7, 1 to `block` bytes are added.
abbrev pub padded_len : ℕ → ℕ → ℕ
padded_len len block = len + (block - len % block)

pub record BlockModes : Type 1 where
  pub Encryptor : Type 0
  pub Decryptor : Type 0
  pub Stream : Type 0
  -- `new_from_slices` of `cbc::Encryptor`, `cbc::Decryptor` and `Ctr128BE`, which fail with
  -- `InvalidLength`.
  pub new_encryptor : BlockCipher → Bytes → Bytes → Outcome Unit Encryptor
  pub new_decryptor : BlockCipher → Bytes → Bytes → Outcome Unit Decryptor
  pub new_stream : BlockCipher → Bytes → Bytes → Outcome Unit Stream
  -- With `Pkcs7`. The first fails with `PadError`. The second fails with `UnpadError`, and returns
  -- how much of what it writes is the text; padding is behind it.
  pub encrypt_padded_b2b_mut : Encryptor → Bytes → ℕ → Outcome Unit Bytes
  pub decrypt_padded_b2b_mut : Decryptor → Bytes → ℕ → Outcome Unit (ℕ × Bytes)
  -- To a slice of the same size. It fails with `StreamCipherError`.
  pub apply_keystream_b2b : Stream → Bytes → Outcome Unit Bytes
  -- What the encryption of `src` consists of.
  pub cbc_encrypted : BlockCipher → Bytes → Bytes → Bytes → Bytes
  pub ctr_applied : BlockCipher → Bytes → Bytes → Bytes → Bytes
  pub length-cbc_encrypted :
      (c : BlockCipher) (key iv src : Bytes)
      → length (cbc_encrypted c key iv src) ≡ padded_len (length src) (cipher_block c)
  pub length-ctr_applied :
      (c : BlockCipher) (key iv src : Bytes) → length (ctr_applied c key iv src) ≡ length src
  pub cbc_encrypts :
      (c : BlockCipher) (key iv src : Bytes) (room : ℕ)
      → length key ≡ cipher_key_len c
      → length iv ≡ cipher_block c
      → padded_len (length src) (cipher_block c) ≤ room
      → (enc : Encryptor) × (new_encryptor c key iv ≡ ok enc)
        × (encrypt_padded_b2b_mut enc src room ≡ ok (cbc_encrypted c key iv src))
  pub cbc_decrypts :
      (c : BlockCipher) (key iv src : Bytes) (room : ℕ)
      → length key ≡ cipher_key_len c
      → length iv ≡ cipher_block c
      → length (cbc_encrypted c key iv src) ≤ room
      → (dec : Decryptor) × (written : Bytes) × (new_decryptor c key iv ≡ ok dec)
        × (decrypt_padded_b2b_mut dec (cbc_encrypted c key iv src) room ≡ ok (length src, written))
        × (take (length src) written ≡ src)
        × (length written ≡ length (cbc_encrypted c key iv src))
  -- A stream that is applied twice from its start changes nothing.
  pub ctr_applies :
      (c : BlockCipher) (key iv src : Bytes)
      → length key ≡ cipher_key_len c
      → length iv ≡ cipher_block c
      → (s : Stream) × (new_stream c key iv ≡ ok s)
        × (apply_keystream_b2b s src ≡ ok (ctr_applied c key iv src))
        × (apply_keystream_b2b s (ctr_applied c key iv src) ≡ ok src)
