-- ===== src/Format/Pubkey/Decode.antt =====
-- src/format/ossh_pubkey.rs: reading the public key blobs.
use rust_osshkeys.Prelude.{
  Bytes, [], ◌∷◌, Bool, true, false, ◌&&◌, ◌||◌, ◌==◌, bytes_eq, ascii, Option, none, some, length,
  map_err, Step, ◌>>=◌, lift,
}
use rust_osshkeys.Error.{
  Error, OsshResult, from_kind, on_io, type_not_match, unsupport_curve, invalid_key_size,
}
use rust_osshkeys.Format.Wire.{with_cursor, check}
use rust_osshkeys.External.KeyTypes.{KeyLib}
use rust_osshkeys.Sshbuf.Memory.{Cursor, cursor_reader}
use rust_osshkeys.Sshbuf.Read.{read_utf8, read_string, read_mpint}
use rust_osshkeys.Keys.Rsa
use rust_osshkeys.Keys.Rsa.{RsaPublicKey, rsa_name, rsa_sha256_name, rsa_sha512_name}
use rust_osshkeys.Keys.Dsa
use rust_osshkeys.Keys.Dsa.{DsaPublicKey, dsa_name}
use rust_osshkeys.Keys.Ecdsa
use rust_osshkeys.Keys.Ecdsa.{EcCurve, EcDsaPublicKey, from_str, curve_eq}
use rust_osshkeys.Keys.Ed25519
use rust_osshkeys.Keys.Ed25519.{Ed25519PublicKey, ed25519_name, public_key_length}

-- `str::starts_with`.
unfoldable pub starts_with : Bytes → Bytes → Bool
starts_with b [] = true
starts_with [] (x ∷ xs) = false
starts_with (b ∷ bs) (x ∷ xs) = b == x && starts_with bs xs

abbrev get_text : Step Error Cursor Bytes
get_text = on_io (read_utf8 cursor_reader)

abbrev get_string : Step Error Cursor Bytes
get_string = on_io (read_string cursor_reader)

module _ (lib : KeyLib) where
  abbrev get_mpint : Step Error Cursor lib.bn.BigNum
  get_mpint = on_io (read_mpint lib.bn cursor_reader)

  unfoldable pub decode_rsa_pubkey : Bytes → OsshResult (RsaPublicKey lib)
  unfolding with_cursor bytes_eq Rsa.new
  decode_rsa_pubkey = with_cursor (do
    keyname ← get_text
    _ ←
        check
          (bytes_eq keyname rsa_name
            || bytes_eq keyname rsa_sha256_name
            || bytes_eq keyname rsa_sha512_name)
          type_not_match
    e ← get_mpint
    n ← get_mpint
    lift (Rsa.new lib n e))

  unfoldable pub decode_dsa_pubkey : Bytes → OsshResult (DsaPublicKey lib)
  unfolding with_cursor bytes_eq Dsa.new
  decode_dsa_pubkey = with_cursor (do
    keyname ← get_text
    _ ← check (bytes_eq keyname dsa_name) type_not_match
    p ← get_mpint
    q ← get_mpint
    g ← get_mpint
    y ← get_mpint
    lift (Dsa.new lib p q g y))

  -- `if let Some(curve_hint)`: the test that the hint passes.
  unfoldable pub matches_hint : Option EcCurve → EcCurve → Bool
  unfolding curve_eq
  matches_hint none curve = true
  matches_hint (some hint) curve = curve_eq curve hint

  unfoldable pub decode_ecdsa_pubkey : Option EcCurve → Bytes → OsshResult (EcDsaPublicKey lib)
  unfolding with_cursor starts_with from_str matches_hint Ecdsa.public_from_bytes
  decode_ecdsa_pubkey curve_hint = with_cursor (do
    keyname ← get_text
    _ ← check (starts_with keyname (ascii "ecdsa-sha2-")) type_not_match
    ident_str ← get_text
    curve ← lift (map_err (λ _. from_kind unsupport_curve) (from_str ident_str))
    _ ← check (matches_hint curve_hint curve) type_not_match
    pub_key ← get_string
    lift (Ecdsa.public_from_bytes lib curve pub_key))

  unfoldable pub decode_ed25519_pubkey : Bytes → OsshResult (Ed25519PublicKey lib)
  unfolding with_cursor bytes_eq Ed25519.new
  decode_ed25519_pubkey = with_cursor (do
    keyname ← get_text
    _ ← check (bytes_eq keyname ed25519_name) type_not_match
    pub_key ← get_string
    _ ← check (length pub_key == public_key_length) invalid_key_size
    lift (Ed25519.new lib pub_key))
