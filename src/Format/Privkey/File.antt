-- ===== src/Format/Privkey/File.antt =====
-- The private key file: `decode_ossh_priv` after `encode_ossh_priv`.
use rust_osshkeys.Prelude.{
  [], ℕ, ◌≡◌, ap, ◌∙◌, Bytes, ◌++◌, append_assoc, ok, some, refl, sym, append-nil, arith, false,
  true, leb, length, ◌<◌, err, Option,
}
use rust_osshkeys.Error.{from_io, Error, fail, from_kind, incorrect_pass, invalid_key_format}
use rust_osshkeys.External.OsshLib.{OsshLib}
use rust_osshkeys.Sshbuf.Endian.{to_be_bytes}
use rust_osshkeys.Sshbuf.Memory.{vec_writer, cursor_reader}
use rust_osshkeys.Sshbuf.Rules.{Writes-convert, Writes-seq, Writes-lift_bind, Reads-convert}
use rust_osshkeys.Sshbuf.RoundTrip.{
  string_bytes, Writes-write_uint32, Writes-write_all, Reads-read_uint32,
}
use rust_osshkeys.Cipher.Table.{Cipher, name, is_null}
use rust_osshkeys.Keys.Container.{KeyPair}
use rust_osshkeys.Format.Wire.{
  into_vec_of, Writes-string, Writes-text, Reads-text, Reads-string, Reads-check,
}
use rust_osshkeys.Format.Privkey.Encode.{key_magic, encode_ossh_priv}
use rust_osshkeys.Format.Privkey.Decode.{
  decode_ossh_priv, decode_body, decrypt_ossh_priv, has_passphrase,
}
use rust_osshkeys.Format.Privkey.Body.{
  name-IsText, body_bytes, length-body_bytes, decode_body_lem, decode_ossh_priv_lem, IsReadAs,
}
use rust_osshkeys.Format.Privkey.FileParts.{IsWritableFile, Parts, Parts-of}
use rust_osshkeys.Cipher.Names.{from_str-name}
use rust_osshkeys.Sshbuf.Fails.{Fails, Fails-bind, Fails-last, Fails-lift_bind}

module _ (lib : OsshLib) where
  -- The file that the parts make.
  pub file_of_Parts :
      (key : KeyPair lib.keys) (c : Cipher) (pass salt : Bytes) (rounds checksum : ℕ)
      → (h : Parts lib key c pass salt rounds checksum)
      → encode_ossh_priv lib key pass c rounds salt checksum
        ≡ ok (key_magic ++ body_bytes c h.kdfname h.kdf h.blob h.content)
  unfolding encode_ossh_priv body_bytes
  file_of_Parts key c pass salt rounds checksum h =
      let r = h.read_as in
      let rest = to_be_bytes 4 1 ++ (string_bytes h.blob ++ string_bytes h.content) in
      let written = into_vec_of _ _ (
        Writes-seq _ _ (Writes-convert from_io _ (Writes-write_all vec_writer key_magic)) (
          Writes-seq _ _ (Writes-text vec_writer (name c) (name-IsText c).0) (
            Writes-seq _ _ h.kdf_put (
              Writes-seq _ _ (Writes-convert from_io _ (Writes-write_uint32 vec_writer 1)) (
                Writes-lift_bind _ _ h.has_blob (
                  Writes-seq _ _ (Writes-string vec_writer h.blob r.blob_fits) (
                    Writes-lift_bind _ _ h.has_priv (
                      Writes-lift_bind _ _ h.is_sealed
                        (Writes-string vec_writer h.content r.content_fits))))))))) in
      rw h.with_pass (
        written
        ∙ ap (λ x. ok (key_magic ++ (string_bytes (name c) ++ x)))
            (append_assoc (string_bytes h.kdfname) (string_bytes h.kdf) rest))

  -- `encode_ossh_priv` writes a file, with each of the ciphers, and `decode_ossh_priv` reads the key
  -- and its comment from it with the same passphrase. This is for a key that can be encoded, whose
  -- comment is UTF-8 and whose parts fit in the wire format. With a cipher it is for a passphrase
  -- that is not empty, a salt of 16 bytes and a call of `bcrypt_pbkdf` that succeeds.
  pub decode-encode_ossh_priv :
      (key : KeyPair lib.keys) (c : Cipher) (pass salt : Bytes) (rounds checksum : ℕ)
      → IsWritableFile lib key c pass salt rounds checksum
      → (file : Bytes) × (encode_ossh_priv lib key pass c rounds salt checksum ≡ ok file)
        × (decode_ossh_priv lib file (some pass) ≡ ok key)
  decode-encode_ossh_priv key c pass salt rounds checksum h =
      let parts = Parts-of lib key pass salt rounds checksum c h in
      (
        _,
        file_of_Parts key c pass salt rounds checksum parts,
        decode_ossh_priv_lem lib key (some pass) _ (length-body_bytes c _ _ _ _)
            (decode_body_lem lib key c (some pass) _ _ _ _ parts.read_as),
      )

  decrypt_ossh_priv_refuses :
      (c : Cipher) (pass : Option Bytes) (content kdfname kdf : Bytes)
      → has_passphrase pass ≡ false
      → is_null c ≡ false
      → decrypt_ossh_priv lib content pass (name c) kdfname kdf ≡ fail incorrect_pass
  unfolding decrypt_ossh_priv
  decrypt_ossh_priv_refuses c pass content kdfname kdf hp isnt = rw (from_str-name c, hp, isnt) refl

  decode_body_refuses :
      (key : KeyPair lib.keys) (c : Cipher) (pass other : Option Bytes)
      (kdfname kdf blob content : Bytes)
      → IsReadAs lib key c pass kdfname kdf blob content
      → has_passphrase other ≡ false
      → is_null c ≡ false
      → Fails cursor_reader
          (decode_body lib other)
          (body_bytes c kdfname kdf blob content)
          (from_kind incorrect_pass)
  unfolding decode_body body_bytes
  decode_body_refuses key c pass other kdfname kdf blob content h hp isnt =
      let rd = cursor_reader in
      let (fits, text) = name-IsText c in
      let one = Reads-convert from_io _ (Reads-read_uint32 rd 1 (omega arith)) in
      let no = decrypt_ossh_priv_refuses c other content kdfname kdf hp isnt in
      Fails-bind _ _ (Reads-text rd (name c) fits text) (
        Fails-bind _ _ (Reads-text rd kdfname h.kdfname_fits h.kdfname_text) (
          Fails-bind _ _ (Reads-string rd kdf h.kdf_fits) (
            Fails-bind _ _ one (
              Fails-bind _ _ (Reads-check rd _ invalid_key_format refl) (
                Fails-bind _ _ (Reads-string rd blob h.blob_fits) (
                  Fails-last _ _ (Reads-string rd content h.content_fits)
                    (Fails-lift_bind _ _ no)))))))

  decode_ossh_priv-Fails :
      (pass : Option Bytes) (body : Bytes) (e : Error)
      → 0 < length body
      → Fails cursor_reader (decode_body lib pass) body e
      → decode_ossh_priv lib (key_magic ++ body) pass ≡ err e
  unfolding decode_ossh_priv
  decode_ossh_priv-Fails pass body e pos p =
      let failed =
        p.at (record { inner = key_magic ++ body; pos = 15 }) [] (sym (append-nil body)) in
      let long : leb 16 (length (key_magic ++ body)) ≡ true = ground arith in rw (long, failed) refl

  -- With a cipher, and for a key and arguments that make a readable file,
  -- `encode_ossh_priv` writes a file that is refused with IncorrectPass if `decode_ossh_priv` gets no
  -- passphrase or an empty one.
  pub decode-encode_no_pass :
      (key : KeyPair lib.keys) (c : Cipher) (pass salt : Bytes) (rounds checksum : ℕ)
      (other : Option Bytes)
      → IsWritableFile lib key c pass salt rounds checksum
      → is_null c ≡ false
      → has_passphrase other ≡ false
      → (file : Bytes) × (encode_ossh_priv lib key pass c rounds salt checksum ≡ ok file)
        × (decode_ossh_priv lib file other ≡ fail incorrect_pass)
  decode-encode_no_pass key c pass salt rounds checksum other h isnt hp =
      let parts = Parts-of lib key pass salt rounds checksum c h in
      (
        _,
        file_of_Parts key c pass salt rounds checksum parts,
        decode_ossh_priv-Fails other _ _ (length-body_bytes c _ _ _ _)
            (decode_body_refuses key c (some pass) other _ _ _ _ parts.read_as hp isnt),
      )
