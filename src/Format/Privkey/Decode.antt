-- ===== src/Format/Privkey/Decode.antt =====
-- src/format/ossh_privkey.rs: `decode_ossh_priv` and `decrypt_ossh_priv`.
use rust_osshkeys.Prelude.{
  ℕ, zero, suc, ◌+◌, ◌%◌, Bytes, [], ◌∷◌, Bool, false, not, bytes_eq, bit_and, ◌&&◌, ◌||◌, ltb, leb,
  ◌==◌, if◌then◌else◌, take, drop, length, Option, none, some, ok, panic, and_then, map_err, Step,
  ◌>>=◌, pure, lift,
}
use rust_osshkeys.Error.{
  Error, OsshResult, fail, from_bcrypt, from_io, on_io, incorrect_pass, invalid_key_format,
  unsupport_cipher, unknown,
}
use rust_osshkeys.External.OsshLib.{OsshLib}
use rust_osshkeys.Sshbuf.Memory.{Cursor, cursor_reader}
use rust_osshkeys.Sshbuf.Buffer
use rust_osshkeys.Sshbuf.Buffer.{SshBuf, ssh_buf_reader}
use rust_osshkeys.Sshbuf.Read.{read_uint32, read_string, read_utf8}
use rust_osshkeys.Cipher.Table.{Cipher, from_str, is_null, block_size, key_len, iv_len}
use rust_osshkeys.Cipher.Crypt
use rust_osshkeys.Keys.Container.{KeyPair}
use rust_osshkeys.Format.Wire.{check, with_cursor}
use rust_osshkeys.Format.Privkey.Key.{decode_key}
use rust_osshkeys.Format.Privkey.Encode.{key_magic, kdf_bcrypt, kdf_none}

abbrev get_text : Step Error Cursor Bytes
get_text = on_io (read_utf8 cursor_reader)

abbrev get_string : Step Error Cursor Bytes
get_string = on_io (read_string cursor_reader)

-- `passphrase.map_or(false, |pass| !pass.is_empty())`.
unfoldable pub has_passphrase : Option Bytes → Bool
unfolding bytes_eq
has_passphrase none = false
has_passphrase (some pass) = not (bytes_eq pass [])

-- The salt and the rounds in `kdf`.
unfoldable pub read_kdf : Bytes → OsshResult (Bytes × ℕ)
unfolding with_cursor
read_kdf =
    with_cursor
      (do salt ← get_string; round ← on_io (read_uint32 cursor_reader); pure (salt, round))

module _ (lib : OsshLib) where
  -- `keyder` from the passphrase, with the salt and the rounds in `kdf`.
  unfoldable pub derive : Cipher → Option Bytes → Bytes → Bytes → OsshResult Bytes
  unfolding bytes_eq read_kdf key_len iv_len
  derive cipher none kdfname kdf =
      if bytes_eq kdfname kdf_bcrypt then fail unknown else fail unsupport_cipher
  derive cipher (some pass) kdfname kdf =
      if bytes_eq kdfname kdf_bcrypt
      then and_then (read_kdf kdf) (λ p.
        map_err from_bcrypt (lib.kdf.bcrypt_pbkdf pass p.0 p.1 (key_len cipher + iv_len cipher)))
      else fail unsupport_cipher

  -- `cvec.resize`, `decrypt_to` and `cvec.resize` again.
  unfoldable pub decrypt_into : Cipher → Bytes → Bytes → Bytes → OsshResult (SshBuf lib.cv)
  unfolding Crypt.calc_buffer_len Crypt.decrypt_to Buffer.with_vec
  decrypt_into cipher privkey_data key iv =
      let cvec =
        lib.cv.resize lib.cv.new (Crypt.calc_buffer_len lib.cipher cipher (length privkey_data)) in
      and_then (Crypt.decrypt_to lib.cipher cipher (lib.cv.as_slice cvec) privkey_data key iv)
        (λ p. ok (Buffer.with_vec lib.cv (lib.cv.resize (lib.cv.set_slice cvec p.1) p.0)))

  unfoldable pub decrypt_ossh_priv :
      Bytes → Option Bytes → Bytes → Bytes → Bytes → OsshResult (SshBuf lib.cv)
  unfolding from_str has_passphrase is_null bytes_eq block_size derive decrypt_into key_len
      Buffer.with_vec
  decrypt_ossh_priv privkey_data passphrase ciphername kdfname kdf =
      and_then (from_str ciphername) (λ cipher.
        if not (has_passphrase passphrase) && not (is_null cipher)
        then fail incorrect_pass
        else if not (bytes_eq kdfname kdf_none) && not (bytes_eq kdfname kdf_bcrypt)
        then fail unsupport_cipher
        else if bytes_eq kdfname kdf_none && not (is_null cipher)
        then fail invalid_key_format
        else if ltb (length privkey_data) (block_size cipher)
            || not (length privkey_data % block_size cipher == 0)
        then fail invalid_key_format
        else if not (is_null cipher)
        then and_then (derive cipher passphrase kdfname kdf) (λ keyder.
          decrypt_into cipher privkey_data (take (key_len cipher) keyder)
            (drop (key_len cipher) keyder))
        else ok (Buffer.with_vec lib.cv (lib.cv.from_slice privkey_data)))

  -- One round of the padding check, on what `bytes().next()` read: nothing, or one byte.
  abbrev check_pad :
      (ℕ → SshBuf lib.cv → OsshResult (Unit × SshBuf lib.cv))
      → ℕ
      → Bytes × SshBuf lib.cv
      → OsshResult (Unit × SshBuf lib.cv)
  check_pad rest i ([], s) = ok (tt, s)
  check_pad rest i (pad ∷ _, s) =
      if bit_and (i + 1) 0xff == pad then rest (i + 1) s else fail invalid_key_format

  -- `for (i, pad) in secret_reader.bytes().enumerate()`, with fuel: each round reads a byte, so one
  -- round more than there are bytes is enough; `panic` stands for the fuel running out.
  unfoldable pub check_padding : ℕ → ℕ → Step Error (SshBuf lib.cv) Unit
  unfolding Buffer.read
  check_padding zero i s = panic
  check_padding (suc fuel) i s =
      and_then (map_err from_io (Buffer.read lib.cv 1 s)) (check_pad (check_padding fuel) i)

  -- `decode_ossh_priv` from the first checksum to the comment.
  unfoldable pub decode_fields : Step Error (SshBuf lib.cv) (KeyPair lib.keys)
  unfolding decode_key
  decode_fields = do
    checksum0 ← on_io (read_uint32 (ssh_buf_reader lib.cv))
    checksum1 ← on_io (read_uint32 (ssh_buf_reader lib.cv))
    _ ← check (checksum0 == checksum1) incorrect_pass
    key ← decode_key lib.keys (ssh_buf_reader lib.cv)
    comment ← on_io (read_utf8 (ssh_buf_reader lib.cv))
    pure (record { key = key; comment = comment })

  -- `decode_ossh_priv` from the first checksum on.
  unfoldable pub decode_secret : Step Error (SshBuf lib.cv) (KeyPair lib.keys)
  unfolding decode_fields check_padding Buffer.len
  decode_secret = do
    keypair ← decode_fields
    _ ← (λ s. check_padding (suc (Buffer.len lib.cv s)) 0 s)
    pure keypair

  unfoldable pub decode_body : Option Bytes → Step Error Cursor (KeyPair lib.keys)
  unfolding decrypt_ossh_priv decode_secret
  decode_body passphrase = do
    ciphername ← get_text
    kdfname ← get_text
    kdf ← get_string
    nkeys ← on_io (read_uint32 cursor_reader)
    _ ← check (nkeys == 1) invalid_key_format
    _ ← get_string
    encrypted ← get_string
    secret ← lift (decrypt_ossh_priv encrypted passphrase ciphername kdfname kdf)
    lift (and_then (decode_secret secret) (λ p. ok p.0))

  unfoldable pub decode_ossh_priv : Bytes → Option Bytes → OsshResult (KeyPair lib.keys)
  unfolding decode_body bytes_eq
  decode_ossh_priv keydata passphrase =
      if leb 16 (length keydata) && bytes_eq (take 15 keydata) key_magic
      then and_then (decode_body passphrase (record { inner = keydata; pos = 15 })) (λ p. ok p.0)
      else fail invalid_key_format
