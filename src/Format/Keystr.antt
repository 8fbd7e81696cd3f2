-- ===== src/Format/Keystr.antt =====
-- src/format/mod.rs, `parse_keystr`, and src/keys/mod.rs: the methods of `PublicKey` and `KeyPair`
-- that read and write texts. A text is its UTF-8 bytes.
use rust_osshkeys.Prelude.{
  ℕ, Bytes, [], ascii, bytes_eq, ◌||◌, Bool, Option, none, some, if◌then◌else◌, and_then,
}
use rust_osshkeys.Error.{OsshResult, fail, from_pem, on_unit, unsupport_type}
use rust_osshkeys.External.PemLib.{PemLib}
use rust_osshkeys.Cipher.Table.{Cipher, null}
use rust_osshkeys.Keys.Container.{PublicKey, KeyPair, public_keyname, pair_keyname}
use rust_osshkeys.Format.Pubkey.Encode.{public_blob, pair_blob}
use rust_osshkeys.Format.Pubkey.Line.{serialize_ossh_pubkey, parse_ossh_pubkey}
use rust_osshkeys.Format.Privkey.Decode.{decode_ossh_priv}
use rust_osshkeys.Format.Privkey.Armor.{serialize_ossh_privkey}
use rust_osshkeys.Format.Pem.{starts_with, parse_pem_privkey, parse_pem_pubkey}
use rust_osshkeys.Format.Trim.{trim}

-- The tags of the texts that OpenSSL reads.
unfoldable pub is_pem_tag : Bytes → Bool
unfolding bytes_eq
is_pem_tag tag =
    bytes_eq tag (ascii "PRIVATE KEY")
    || bytes_eq tag (ascii "ENCRYPTED PRIVATE KEY")
    || bytes_eq tag (ascii "DSA PRIVATE KEY")
    || bytes_eq tag (ascii "RSA PRIVATE KEY")
    || bytes_eq tag (ascii "EC PRIVATE KEY")
    || bytes_eq tag (ascii "BEGIN PRIVATE KEY")

module _ (lib : PemLib) where
  -- `parse_keystr`, which is also `KeyPair::from_keystr`.
  unfoldable pub parse_keystr : Bytes → Option Bytes → OsshResult (KeyPair lib.ossh.keys)
  unfolding bytes_eq decode_ossh_priv is_pem_tag parse_pem_privkey
  parse_keystr pem passphrase = and_then (on_unit from_pem (lib.pems.parse pem)) (λ pemdata.
      if bytes_eq pemdata.tag (ascii "OPENSSH PRIVATE KEY")
      then decode_ossh_priv lib.ossh pemdata.contents passphrase
      else if is_pem_tag pemdata.tag
      then parse_pem_privkey lib pem passphrase
      else fail unsupport_type)

  -- `PublicKey::from_keystr`, `serialize` and `serialize_pem`.
  unfoldable pub public_from_keystr : Bytes → OsshResult (PublicKey lib.ossh.keys)
  unfolding starts_with parse_pem_pubkey parse_ossh_pubkey
  public_from_keystr keystr =
      if starts_with (trim keystr) (ascii "-----BEGIN")
      then parse_pem_pubkey lib keystr
      else parse_ossh_pubkey lib.ossh.keys lib.b64 keystr

  unfoldable pub serialize : PublicKey lib.ossh.keys → OsshResult Bytes
  unfolding serialize_ossh_pubkey public_keyname public_blob
  serialize k =
      serialize_ossh_pubkey lib.b64 (public_keyname lib.ossh.keys k.key)
        (public_blob lib.ossh.keys k.key) k.comment

  -- `KeyPair::serialize_openssh`.
  unfoldable pub serialize_openssh :
      KeyPair lib.ossh.keys → Option Bytes → Cipher → Bytes → ℕ → OsshResult Bytes
  unfolding serialize_ossh_privkey
  serialize_openssh k (some passphrase) cipher salt checksum =
      serialize_ossh_privkey lib.ossh lib.b64 k passphrase cipher 0 salt checksum
  serialize_openssh k none cipher salt checksum =
      serialize_ossh_privkey lib.ossh lib.b64 k [] null 0 salt checksum

  -- `KeyPair::serialize_publickey`.
  unfoldable pub serialize_publickey : KeyPair lib.ossh.keys → OsshResult Bytes
  unfolding serialize_ossh_pubkey pair_keyname pair_blob
  serialize_publickey k =
      serialize_ossh_pubkey lib.b64 (pair_keyname lib.ossh.keys k.key)
        (pair_blob lib.ossh.keys k.key) k.comment
