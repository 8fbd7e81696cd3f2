-- ===== src/Format/Privkey/Encode.antt =====
-- src/format/ossh_privkey.rs: `encode_ossh_priv` and `encrypt_ossh_priv`. The salt and the checksum
-- that the generator `StdRng` supplies are arguments.
use rust_osshkeys.Prelude.{
  ℕ, zero, suc, ◌+◌, ◌%◌, Bytes, [], ◌∷◌, bytes_eq, bit_and, ascii, ◌&&◌, ltb, ◌==◌, if◌then◌else◌,
  take, drop, ok, panic, and_then, map_err, Step, ◌>>=◌, ◌>>◌, lift, ◌++◌,
}
use rust_osshkeys.Error.{Error, OsshResult, fail, from_bcrypt, on_io, incorrect_pass}
use rust_osshkeys.External.OsshLib.{OsshLib}
use rust_osshkeys.Sshbuf.Memory.{vec_writer}
use rust_osshkeys.Sshbuf.Buffer
use rust_osshkeys.Sshbuf.Buffer.{SshBuf, ssh_buf_writer}
use rust_osshkeys.Sshbuf.Write.{write_uint32, write_string, write_utf8}
use rust_osshkeys.Cipher.Table.{Cipher, name, is_some, block_size, key_len, iv_len}
use rust_osshkeys.Cipher.Crypt
use rust_osshkeys.Keys.Container.{KeyPair}
use rust_osshkeys.Format.Wire.{into_vec}
use rust_osshkeys.Format.Pubkey.Encode.{pair_blob}
use rust_osshkeys.Format.Privkey.Key.{encode_key}

-- `KEY_MAGIC`: 15 bytes, the last of them zero.
abbrev pub key_magic : Bytes
key_magic = ascii "openssh-key-v1" ++ (0 ∷ [])

abbrev pub kdf_bcrypt : Bytes
kdf_bcrypt = ascii "bcrypt"

abbrev pub kdf_none : Bytes
kdf_none = ascii "none"

abbrev pub default_rounds : ℕ
default_rounds = 16

abbrev put_string : Bytes → Step Error Bytes Unit
put_string b = on_io (write_string vec_writer b)

abbrev put_text : Bytes → Step Error Bytes Unit
put_text b = on_io (write_utf8 vec_writer b)

abbrev put_uint32 : ℕ → Step Error Bytes Unit
put_uint32 n = on_io (write_uint32 vec_writer n)

-- The content of `kdfbuf`.
unfoldable pub kdf_options : Bytes → ℕ → OsshResult Bytes
unfolding into_vec
kdf_options salt rounds = into_vec (do put_string salt; put_uint32 rounds)

-- The name of the key derivation function and its options.
unfoldable pub put_kdf : Cipher → Bytes → ℕ → Step Error Bytes Unit
unfolding is_some kdf_options
put_kdf cipher salt rounds =
    if is_some cipher
    then (do put_text kdf_bcrypt; options ← lift (kdf_options salt rounds); put_string options)
    else (do put_text kdf_none; put_string [])

-- `rounds`: the rounds asked for, or the default if there are none.
unfoldable pub used_rounds : ℕ → ℕ
used_rounds kdf_rounds = if ltb 0 kdf_rounds then kdf_rounds else default_rounds

module _ (lib : OsshLib) where
  -- One padding byte: `privbuf.write_u8((i & 0xff) as u8)?`.
  unfoldable pub put_pad : ℕ → Step Error (SshBuf lib.cv) Unit
  put_pad i = on_io (lib.bo.write_u8 (SshBuf lib.cv) (ssh_buf_writer lib.cv) (bit_and i 0xff))

  -- `while privbuf.len() % cipher.block_size() != 0`, with fuel: less than a block is added, so
  -- the block size is enough; `panic` stands for the fuel running out.
  unfoldable pub pad_loop : ℕ → ℕ → ℕ → Step Error (SshBuf lib.cv) Unit
  unfolding Buffer.len put_pad
  pad_loop zero block i s = if Buffer.len lib.cv s % block == 0 then ok (tt, s) else panic
  pad_loop (suc fuel) block i s =
      let rest = and_then (put_pad (i + 1) s) (λ p. pad_loop fuel block (i + 1) p.1) in
      if Buffer.len lib.cv s % block == 0 then ok (tt, s) else rest

  -- What goes into `privbuf` before the padding.
  unfoldable pub put_fields : KeyPair lib.keys → ℕ → Step Error (SshBuf lib.cv) Unit
  unfolding encode_key
  put_fields key checksum = do
    on_io (write_uint32 (ssh_buf_writer lib.cv) checksum)
    on_io (write_uint32 (ssh_buf_writer lib.cv) checksum)
    encode_key lib.keys (ssh_buf_writer lib.cv) key.key
    on_io (write_utf8 (ssh_buf_writer lib.cv) key.comment)

  -- What goes into `privbuf`.
  unfoldable pub put_private : KeyPair lib.keys → Cipher → ℕ → Step Error (SshBuf lib.cv) Unit
  unfolding pad_loop put_fields block_size
  put_private key cipher checksum = do
    put_fields key checksum
    pad_loop (block_size cipher) (block_size cipher) 0

  unfoldable pub private_section : KeyPair lib.keys → Cipher → ℕ → OsshResult Bytes
  unfolding put_private Buffer.new Buffer.as_slice
  private_section key cipher checksum =
      and_then (put_private key cipher checksum (Buffer.new lib.cv))
        (λ p. ok (Buffer.as_slice lib.cv p.1))

  unfoldable pub encrypt_ossh_priv : Bytes → Bytes → Cipher → ℕ → Bytes → OsshResult Bytes
  unfolding key_len iv_len Crypt.encrypt bytes_eq
  encrypt_ossh_priv privkey passphrase cipher kdf_rounds salt =
      if bytes_eq passphrase []
      then fail incorrect_pass
      else and_then
          (map_err from_bcrypt
            (lib.kdf.bcrypt_pbkdf passphrase salt kdf_rounds (key_len cipher + iv_len cipher)))
          (λ keyder.
            Crypt.encrypt lib.cipher cipher privkey (take (key_len cipher) keyder)
              (drop (key_len cipher) keyder))

  -- The last part of the file: `privbuf`, encrypted if there is a cipher.
  unfoldable pub seal : Bytes → Bytes → Cipher → ℕ → Bytes → OsshResult Bytes
  unfolding is_some encrypt_ossh_priv
  seal privbuf passphrase cipher rounds salt =
      if is_some cipher then encrypt_ossh_priv privbuf passphrase cipher rounds salt else ok privbuf

  unfoldable pub encode_ossh_priv :
      KeyPair lib.keys → Bytes → Cipher → ℕ → Bytes → ℕ → OsshResult Bytes
  unfolding used_rounds is_some name put_kdf private_section seal into_vec pair_blob bytes_eq
  encode_ossh_priv key passphrase cipher kdf_rounds salt checksum =
      let rounds = used_rounds kdf_rounds in
      if is_some cipher && bytes_eq passphrase []
      then fail incorrect_pass
      else into_vec (do
        on_io (vec_writer.write_all key_magic)
        put_text (name cipher)
        put_kdf cipher salt rounds
        put_uint32 1
        blob ← lift (pair_blob lib.keys key.key)
        put_string blob
        privbuf ← lift (private_section key cipher checksum)
        sealed ← lift (seal privbuf passphrase cipher rounds salt)
        put_string sealed)
