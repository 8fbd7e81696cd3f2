-- ===== src/Tests/DisplayExamples.antt =====
-- The lines of text of public keys at concrete inputs.
use rust_osshkeys.Prelude.{◌≡◌, refl, Bytes, ascii, true, ok}
use rust_osshkeys.Keys.Ed25519.{clone_public_key}
use rust_osshkeys.Keys.Container
use rust_osshkeys.Keys.Container.{PublicKeyType, PublicKey, public_from, clone_key}
use rust_osshkeys.Format.Pubkey.Words.{split_ascii_whitespace}
use rust_osshkeys.Format.Pubkey.LineRoundTrip.{parsed_as}
use rust_osshkeys.Format.Keystr.{public_from_keystr, serialize, serialize_publickey}
use rust_osshkeys.Format.Display.{
  key_text, public_text, public_from_keystr-key_text, serialize_publickey-clone_public_key,
}
use rust_osshkeys.Tests.KeyObjects.{key_objects}
use rust_osshkeys.Tests.PemTexts.{pem_lib}
use rust_osshkeys.Tests.KeyExamples.{ed_key}

abbrev ed_part : PublicKeyType key_objects
ed_part = PublicKeyType.ed25519 (record { key = true })

public_from_keystr-key_text_example :
    (line : Bytes) × (key_text pem_lib ed_part ≡ ok line)
    × (public_text pem_lib (public_from key_objects ed_part) ≡ ok line)
    × (public_from_keystr pem_lib line ≡ ok (public_from key_objects ed_part))
public_from_keystr-key_text_example = public_from_keystr-key_text pem_lib ed_part tt

abbrev ed_copy : PublicKey key_objects
ed_copy = record { key = ed_part; comment = ascii "me" }

ed_copied : Container.clone_public_key key_objects ed_key ≡ ok ed_copy
unfolding Container.clone_public_key clone_key clone_public_key
ed_copied = refl

serialize_publickey-clone_public_key_example :
    (line : Bytes) × (serialize_publickey pem_lib ed_key ≡ ok line)
    × (serialize pem_lib ed_copy ≡ ok line)
    × (public_from_keystr pem_lib line
        ≡ parsed_as key_objects ed_part (split_ascii_whitespace (ascii "me")))
serialize_publickey-clone_public_key_example =
    serialize_publickey-clone_public_key pem_lib ed_key ed_copy tt tt ed_copied
