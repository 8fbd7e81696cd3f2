-- ===== src/Cipher/Table.antt =====
-- src/cipher.rs: the enum `Cipher` and its tables.
use rust_osshkeys.Prelude.{ℕ, Bytes, ascii, bytes_eq, Bool, true, false, ◌||◌, if◌then◌else◌, ok}
use rust_osshkeys.Error.{OsshResult, fail, unsupport_cipher}

pub data Cipher : Type 0 where
  aes128_cbc aes192_cbc aes256_cbc aes128_ctr aes192_ctr aes256_ctr tdes_cbc null : Cipher

unfoldable pub key_len : Cipher → ℕ
key_len aes128_cbc = 16
key_len aes192_cbc = 24
key_len aes256_cbc = 32
key_len aes128_ctr = 16
key_len aes192_ctr = 24
key_len aes256_ctr = 32
key_len tdes_cbc = 24
key_len null = 0

unfoldable pub iv_len : Cipher → ℕ
iv_len aes128_cbc = 16
iv_len aes192_cbc = 16
iv_len aes256_cbc = 16
iv_len aes128_ctr = 16
iv_len aes192_ctr = 16
iv_len aes256_ctr = 16
iv_len tdes_cbc = 8
iv_len null = 0

unfoldable pub block_size : Cipher → ℕ
block_size aes128_cbc = 16
block_size aes192_cbc = 16
block_size aes256_cbc = 16
block_size aes128_ctr = 16
block_size aes192_ctr = 16
block_size aes256_ctr = 16
block_size tdes_cbc = 8
block_size null = 8

unfoldable pub name : Cipher → Bytes
name aes128_cbc = ascii "aes128-cbc"
name aes192_cbc = ascii "aes192-cbc"
name aes256_cbc = ascii "aes256-cbc"
name aes128_ctr = ascii "aes128-ctr"
name aes192_ctr = ascii "aes192-ctr"
name aes256_ctr = ascii "aes256-ctr"
name tdes_cbc = ascii "3des-cbc"
name null = ascii "none"

unfoldable pub is_null : Cipher → Bool
is_null null = true
is_null _ = false

unfoldable pub is_some : Cipher → Bool
is_some null = false
is_some _ = true

-- `FromStr for Cipher`.
unfoldable pub from_str : Bytes → OsshResult Cipher
unfolding bytes_eq
from_str s =
    if bytes_eq s (ascii "3des-cbc")
    then ok tdes_cbc
    else if bytes_eq s (ascii "aes128-cbc")
    then ok aes128_cbc
    else if bytes_eq s (ascii "aes192-cbc")
    then ok aes192_cbc
    else if bytes_eq s (ascii "aes256-cbc") || bytes_eq s (ascii "rijndael-cbc@lysator.liu.se")
    then ok aes256_cbc
    else if bytes_eq s (ascii "aes128-ctr")
    then ok aes128_ctr
    else if bytes_eq s (ascii "aes192-ctr")
    then ok aes192_ctr
    else if bytes_eq s (ascii "aes256-ctr")
    then ok aes256_ctr
    else if bytes_eq s (ascii "none")
    then ok null
    else fail unsupport_cipher
