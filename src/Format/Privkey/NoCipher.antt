-- ===== src/Format/Privkey/NoCipher.antt =====
-- Private key files without a cipher, which need no passphrase.
use rust_osshkeys.Prelude.{◌≡◌, ◌∙◌, ℕ, refl, Bytes, not, ok, some, Option}
use rust_osshkeys.External.OsshLib.{OsshLib}
use rust_osshkeys.Cipher.Table.{name, is_null, null}
use rust_osshkeys.Cipher.Names.{from_str-name}
use rust_osshkeys.Keys.Container.{KeyPair}
use rust_osshkeys.Format.Privkey.Encode.{encode_ossh_priv}
use rust_osshkeys.Format.Privkey.Decode.{decode_ossh_priv, decrypt_ossh_priv, has_passphrase}
use rust_osshkeys.Format.Privkey.Body.{
  length-body_bytes, decode_body_lem, decode_ossh_priv_lem, IsReadAs,
}
use rust_osshkeys.Format.Privkey.FileParts.{and_false, IsWritableFile, Parts-of}
use rust_osshkeys.Format.Privkey.File.{file_of_Parts}

module _ (lib : OsshLib) where
  decrypt_null :
      (pass other : Option Bytes) (content kdfname kdf : Bytes)
      → decrypt_ossh_priv lib content pass (name null) kdfname kdf
        ≡ decrypt_ossh_priv lib content other (name null) kdfname kdf
  unfolding decrypt_ossh_priv is_null
  decrypt_null pass other content kdfname kdf =
      rw
        (
          from_str-name null,
          and_false (not (has_passphrase pass)),
          and_false (not (has_passphrase other)),
        )
        refl

  IsReadAs-null :
      (key : KeyPair lib.keys) (pass other : Option Bytes) (kdfname kdf blob content : Bytes)
      → IsReadAs lib key null pass kdfname kdf blob content
      → IsReadAs lib key null other kdfname kdf blob content
  IsReadAs-null key pass other kdfname kdf blob content h = record {
    kdfname_fits = h.kdfname_fits;
    kdfname_text = h.kdfname_text;
    kdf_fits = h.kdf_fits;
    blob_fits = h.blob_fits;
    content_fits = h.content_fits;
    secret = h.secret;
    after = h.after;
    decrypted = decrypt_null other pass content kdfname kdf ∙ h.decrypted;
    decoded = h.decoded;
  }

  -- Without a cipher, and for a key and arguments that make a readable file, `encode_ossh_priv` writes
  -- a file from which `decode_ossh_priv` reads the key with any passphrase, and also with none.
  pub decode-encode_null :
      (key : KeyPair lib.keys) (pass salt : Bytes) (rounds checksum : ℕ) (other : Option Bytes)
      → IsWritableFile lib key null pass salt rounds checksum
      → (file : Bytes) × (encode_ossh_priv lib key pass null rounds salt checksum ≡ ok file)
        × (decode_ossh_priv lib file other ≡ ok key)
  decode-encode_null key pass salt rounds checksum other h =
      let parts = Parts-of lib key pass salt rounds checksum null h in
      (
        _,
        file_of_Parts lib key null pass salt rounds checksum parts,
        decode_ossh_priv_lem lib key other _ (length-body_bytes null _ _ _ _) (
            decode_body_lem lib key null other _ _ _ _
              (IsReadAs-null key (some pass) other _ _ _ _ parts.read_as)),
      )
