-- ===== src/Format/Privkey/Body.antt =====
-- How `decode_ossh_priv` reads the parts of a file.
use rust_osshkeys.Prelude.{
  ◌<◌, ◌≡◌, refl, sym, arith, Bytes, [], ◌++◌, append-nil, length, ok, true, Option, leb,
}
use rust_osshkeys.Error.{invalid_key_format, from_io}
use rust_osshkeys.External.OsshLib.{OsshLib}
use rust_osshkeys.Sshbuf.Endian.{to_be_bytes}
use rust_osshkeys.Sshbuf.Utf8.{IsText, is_utf8}
use rust_osshkeys.Sshbuf.Memory.{cursor_reader}
use rust_osshkeys.Sshbuf.Reader.{Reads}
use rust_osshkeys.Sshbuf.Rules.{
  Reads-convert, Reads-bind, Reads-bind_end, Reads-lift_bind, Reads-lift,
}
use rust_osshkeys.Sshbuf.RoundTrip.{Fits, string_bytes, Reads-read_uint32}
use rust_osshkeys.Sshbuf.Buffer.{SshBuf}
use rust_osshkeys.Cipher.Table.{Cipher, name}
use rust_osshkeys.Keys.Container.{KeyPair}
use rust_osshkeys.Format.Wire.{Reads-string, Reads-text, Reads-check}
use rust_osshkeys.Format.Privkey.Encode.{key_magic, kdf_bcrypt, kdf_none}
use rust_osshkeys.Format.Privkey.Decode.{
  decode_body, decode_ossh_priv, decode_secret, decrypt_ossh_priv,
}

pub name-IsText : (c : Cipher) → Fits (name c) × IsText (name c)
unfolding name is_utf8
name-IsText Cipher.null = (omega arith, refl)
name-IsText Cipher.aes128_cbc = (omega arith, refl)
name-IsText Cipher.aes192_cbc = (omega arith, refl)
name-IsText Cipher.aes256_cbc = (omega arith, refl)
name-IsText Cipher.aes128_ctr = (omega arith, refl)
name-IsText Cipher.aes192_ctr = (omega arith, refl)
name-IsText Cipher.aes256_ctr = (omega arith, refl)
name-IsText Cipher.tdes_cbc = (omega arith, refl)

pub kdf-IsText : IsText kdf_bcrypt × IsText kdf_none
unfolding is_utf8
kdf-IsText = (refl, refl)

-- What follows the magic.
unfoldable pub body_bytes : Cipher → Bytes → Bytes → Bytes → Bytes → Bytes
body_bytes c kdfname kdf blob content =
    string_bytes (name c)
    ++ (string_bytes kdfname
        ++ (string_bytes kdf ++ (to_be_bytes 4 1 ++ (string_bytes blob ++ string_bytes content))))

pub length-body_bytes :
    (c : Cipher) (kdfname kdf blob content : Bytes)
    → 0 < length (body_bytes c kdfname kdf blob content)
unfolding body_bytes string_bytes to_be_bytes
length-body_bytes c kdfname kdf blob content = omega arith

module _ (lib : OsshLib) where
  -- What the five strings of a file must be to be read as `key`.
  pub record IsReadAs (key : KeyPair lib.keys) (c : Cipher) (pass : Option Bytes)
      (kdfname kdf blob content : Bytes) : Type 0 where
    pub kdfname_fits : Fits kdfname
    pub kdfname_text : IsText kdfname
    pub kdf_fits : Fits kdf
    pub blob_fits : Fits blob
    pub content_fits : Fits content
    pub secret : SshBuf lib.cv
    pub after : SshBuf lib.cv
    pub decrypted : decrypt_ossh_priv lib content pass (name c) kdfname kdf ≡ ok secret
    pub decoded : decode_secret lib secret ≡ ok (key, after)

  pub decode_body_lem :
      (key : KeyPair lib.keys) (c : Cipher) (pass : Option Bytes) (kdfname kdf blob content : Bytes)
      → IsReadAs key c pass kdfname kdf blob content
      → Reads cursor_reader (decode_body lib pass) (body_bytes c kdfname kdf blob content) key
  unfolding decode_body body_bytes
  decode_body_lem key c pass kdfname kdf blob content h =
      let rd = cursor_reader in
      let (fits, text) = name-IsText c in
      let one = Reads-convert from_io _ (Reads-read_uint32 rd 1 (omega arith)) in
      Reads-bind _ _ (Reads-text rd (name c) fits text) (
        Reads-bind _ _ (Reads-text rd kdfname h.kdfname_fits h.kdfname_text) (
          Reads-bind _ _ (Reads-string rd kdf h.kdf_fits) (
            Reads-bind _ _ one (
              Reads-bind _ _ (Reads-check rd _ invalid_key_format refl) (
                Reads-bind _ _ (Reads-string rd blob h.blob_fits) (
                  Reads-bind_end _ _ (Reads-string rd content h.content_fits)
                    (Reads-lift_bind _ _ h.decrypted (Reads-lift _ (rw h.decoded refl)))))))))

  pub decode_ossh_priv_lem :
      (key : KeyPair lib.keys) (pass : Option Bytes) (body : Bytes)
      → 0 < length body
      → Reads cursor_reader (decode_body lib pass) body key
      → decode_ossh_priv lib (key_magic ++ body) pass ≡ ok key
  unfolding decode_ossh_priv
  decode_ossh_priv_lem key pass body pos p =
      let (c, e, left) =
        p.at (record { inner = key_magic ++ body; pos = 15 }) [] (sym (append-nil body)) in
      let long : leb 16 (length (key_magic ++ body)) ≡ true = ground arith in rw (long, e) refl
