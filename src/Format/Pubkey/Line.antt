-- ===== src/Format/Pubkey/Line.antt =====
-- src/format/ossh_pubkey.rs: a public key as a line of text, `parse_ossh_pubkey` and
-- `serialize_ossh_pubkey`.
use rust_osshkeys.Prelude.{
  Bytes, List, [], ◌∷◌, ◌++◌, bytes_eq, ◌||◌, if◌then◌else◌, none, some, ok, panic, and_then,
}
use rust_osshkeys.Error.{OsshResult, fail, from_base64, on_unit, invalid_key_format, unsupport_type}
use rust_osshkeys.External.Base64s.{Base64s}
use rust_osshkeys.External.KeyTypes.{KeyLib}
use rust_osshkeys.Keys.Rsa.{
  RsaPublicKey, rsa_name, rsa_sha256_name, rsa_sha512_name, from_name, set_sign_type,
}
use rust_osshkeys.Keys.Dsa.{dsa_name}
use rust_osshkeys.Keys.Ecdsa.{
  nistp256, nistp384, nistp521, nist_p256_name, nist_p384_name, nist_p521_name,
}
use rust_osshkeys.Keys.Ed25519.{ed25519_name}
use rust_osshkeys.Keys.Container.{PublicKeyType, PublicKey}
use rust_osshkeys.Format.Pubkey.Decode.{
  decode_rsa_pubkey, decode_dsa_pubkey, decode_ecdsa_pubkey, decode_ed25519_pubkey,
}
use rust_osshkeys.Format.Pubkey.Words.{split_ascii_whitespace}

-- `serialize_ossh_pubkey` on the `keyname()` and the `blob()` of the key.
unfoldable pub serialize_ossh_pubkey : Base64s → Bytes → OsshResult Bytes → Bytes → OsshResult Bytes
serialize_ossh_pubkey b64 keyname blob comment = and_then blob (λ b.
    let keystr = keyname ++ (32 ∷ b64.encode b) in
    if bytes_eq comment [] then ok keystr else ok (keystr ++ (32 ∷ comment)))

module _ (lib : KeyLib) where
  -- `rsa.set_sign_type(RsaSignature::from_name(key_split[0]).unwrap())`.
  unfoldable pub sign_as : Bytes → RsaPublicKey lib → OsshResult (PublicKeyType lib)
  unfolding from_name set_sign_type
  sign_as name k = elim (from_name name) [
    | none ↦ panic
    | some s ↦ ok (PublicKeyType.rsa (set_sign_type lib k s))
  ]

  -- The match on the first word.
  unfoldable pub decode_named : Bytes → Bytes → OsshResult (PublicKeyType lib)
  unfolding bytes_eq sign_as
  decode_named name blob =
      if bytes_eq name rsa_name || bytes_eq name rsa_sha256_name || bytes_eq name rsa_sha512_name
      then and_then (decode_rsa_pubkey lib blob) (sign_as name)
      else if bytes_eq name dsa_name
      then and_then (decode_dsa_pubkey lib blob) (λ k. ok (PublicKeyType.dsa k))
      else if bytes_eq name nist_p256_name
      then and_then (decode_ecdsa_pubkey lib (some nistp256) blob) (λ k. ok (PublicKeyType.ecdsa k))
      else if bytes_eq name nist_p384_name
      then and_then (decode_ecdsa_pubkey lib (some nistp384) blob) (λ k. ok (PublicKeyType.ecdsa k))
      else if bytes_eq name nist_p521_name
      then and_then (decode_ecdsa_pubkey lib (some nistp521) blob) (λ k. ok (PublicKeyType.ecdsa k))
      else if bytes_eq name ed25519_name
      then and_then (decode_ed25519_pubkey lib blob) (λ k. ok (PublicKeyType.ed25519 k))
      else fail unsupport_type

  -- The first two words, and the comment if there is a third.
  unfoldable pub parse_words : Base64s → Bytes → Bytes → Bytes → OsshResult (PublicKey lib)
  parse_words b64 name body comment = and_then (on_unit from_base64 (b64.decode body)) (λ blob.
      and_then (decode_named name blob) (λ key. ok (record { key = key; comment = comment })))

  unfoldable pub parse_split : Base64s → List Bytes → OsshResult (PublicKey lib)
  unfolding parse_words
  parse_split b64 (name ∷ body ∷ []) = parse_words b64 name body []
  parse_split b64 (name ∷ body ∷ comment ∷ []) = parse_words b64 name body comment
  parse_split b64 _ = fail invalid_key_format

  unfoldable pub parse_ossh_pubkey : Base64s → Bytes → OsshResult (PublicKey lib)
  unfolding parse_split
  parse_ossh_pubkey b64 keystr = parse_split b64 (split_ascii_whitespace keystr)
