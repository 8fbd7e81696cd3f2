-- ===== src/Tests/KeystrExamples.antt =====
-- The theorems on the texts of keys at concrete inputs.
use rust_osshkeys.Prelude.{
  ◌≡◌, refl, arith, Bytes, ascii, replicate, bytes_eq, true, none, some, ok, err,
}
use rust_osshkeys.Error.{from_slice_length}
use rust_osshkeys.Sshbuf.Utf8.{is_utf8}
use rust_osshkeys.Cipher.Table.{null, aes256_cbc}
use rust_osshkeys.Keys.Rsa.{sha1, sha2_512}
use rust_osshkeys.Keys.Container.{
  KeyPair, KeyPairType, PublicKey, PublicKeyType, pair_from, public_from,
}
use rust_osshkeys.Keys.Pkey.{ossl_pkey, ed25519_pair_ossl_pkey, ed25519_ossl_pkey}
use rust_osshkeys.Format.Privkey.Encode.{encode_ossh_priv}
use rust_osshkeys.Format.Privkey.Decode.{decode_ossh_priv}
use rust_osshkeys.Format.Privkey.NoCipher.{decode-encode_null}
use rust_osshkeys.Format.Pubkey.LineRoundTrip.{parsed_as}
use rust_osshkeys.Format.Pubkey.Words.{split_ascii_whitespace}
use rust_osshkeys.Format.Pem.{
  stringify_pem_privkey, privkey_pem, from_utf8, stringify_pem_pubkey, pubkey_pem,
}
use rust_osshkeys.Format.Pkcs8.{serialize_pkcs8_privkey, pkcs8_pem}
use rust_osshkeys.Format.Keystr.{parse_keystr, public_from_keystr, serialize, serialize_openssh}
use rust_osshkeys.Format.PemRoundTrip.{
  parse_keystr-stringify_pem_privkey, parse_keystr-serialize_pkcs8_privkey,
}
use rust_osshkeys.Format.PublicRoundTrip.{
  public_from_keystr-stringify_pem_pubkey, public_from_keystr-serialize,
}
use rust_osshkeys.Format.OpensshRoundTrip.{parse_keystr-serialize_openssh}
use rust_osshkeys.Tests.KeyObjects.{key_objects}
use rust_osshkeys.External.Pems.{has_nul}
use rust_osshkeys.Tests.Services.{services}
use rust_osshkeys.Tests.PemTexts.{pem_lib, the_rsa, rsa_text, ed_text, ed_public_text}
use rust_osshkeys.Tests.KeyExamples.{ed_key, ed_key-IsWritableFile, ed_key-IsPlainFile}

abbrev rsa_key : KeyPair key_objects
rsa_key = record {
  key = KeyPairType.rsa (record { rsa = the_rsa; signhash = sha2_512 });
  comment = ascii "me";
}

rsa_stringified : stringify_pem_privkey pem_lib rsa_key (some (ascii "pw")) ≡ ok rsa_text
unfolding stringify_pem_privkey privkey_pem from_utf8 bytes_eq is_utf8
rsa_stringified = refl

parse_keystr-stringify_pem_privkey_example :
    parse_keystr pem_lib rsa_text (some (ascii "pw"))
    ≡ ok (pair_from key_objects (KeyPairType.rsa (record { rsa = the_rsa; signhash = sha1 })))
parse_keystr-stringify_pem_privkey_example =
    parse_keystr-stringify_pem_privkey pem_lib rsa_key (some (ascii "pw")) rsa_text
      (omega arith, omega arith) (unfold has_nul in refl, omega arith, omega arith) rsa_stringified

ed_serialized : serialize_pkcs8_privkey pem_lib ed_key none ≡ ok ed_text
unfolding serialize_pkcs8_privkey ossl_pkey ed25519_pair_ossl_pkey pkcs8_pem from_utf8 bytes_eq
    is_utf8
ed_serialized = refl

parse_keystr-serialize_pkcs8_privkey_example :
    parse_keystr pem_lib ed_text none ≡ err from_slice_length
parse_keystr-serialize_pkcs8_privkey_example =
    parse_keystr-serialize_pkcs8_privkey pem_lib ed_key none ed_text tt tt ed_serialized

abbrev ed_public : PublicKey key_objects
ed_public = record { key = PublicKeyType.ed25519 (record { key = true }); comment = ascii "me" }

ed_public_stringified : stringify_pem_pubkey pem_lib ed_public ≡ ok ed_public_text
unfolding stringify_pem_pubkey pubkey_pem ed25519_ossl_pkey from_utf8 bytes_eq is_utf8
ed_public_stringified = refl

public_from_keystr-stringify_pem_pubkey_example :
    public_from_keystr pem_lib ed_public_text ≡ ok (public_from key_objects ed_public.key)
public_from_keystr-stringify_pem_pubkey_example =
    public_from_keystr-stringify_pem_pubkey pem_lib ed_public ed_public_text tt
      ed_public_stringified

public_from_keystr-serialize_example :
    (line : Bytes) × (serialize pem_lib ed_public ≡ ok line)
    × (public_from_keystr pem_lib line
        ≡ parsed_as key_objects ed_public.key (split_ascii_whitespace (ascii "me")))
public_from_keystr-serialize_example = public_from_keystr-serialize pem_lib ed_public tt

parse_keystr-serialize_openssh_example :
    (t : Bytes) × (serialize_openssh pem_lib ed_key
        (some (ascii "pw"))
        aes256_cbc
        (replicate 16 3)
        7
      ≡ ok t)
    × (parse_keystr pem_lib t (some (ascii "pw")) ≡ ok ed_key)
parse_keystr-serialize_openssh_example =
    parse_keystr-serialize_openssh pem_lib ed_key (some (ascii "pw")) aes256_cbc (replicate 16 3) 7
      ed_key-IsWritableFile

decode-encode_null_example :
    (file : Bytes) × (encode_ossh_priv services ed_key (ascii "pw") null 0 (replicate 16 3) 7
      ≡ ok file)
    × (decode_ossh_priv services file none ≡ ok ed_key)
decode-encode_null_example =
    decode-encode_null services ed_key (ascii "pw") (replicate 16 3) 0 7 none ed_key-IsPlainFile
