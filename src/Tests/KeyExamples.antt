-- ===== src/Tests/KeyExamples.antt =====
-- The theorems on keys and private key files at concrete inputs.
use rust_osshkeys.Prelude.{
  bytes_eq, some, suc, ◌++◌, ◌%◌, ◌<◌, ◌⊎◌, ◌≢◌, subst, ℕ, ◌≡◌, refl, arith, Bytes, [], ◌∷◌, ascii,
  replicate, true, ok, length,
}
use rust_osshkeys.Error.{incorrect_pass, invalid_key_size, fail, invalid_key_format}
use rust_osshkeys.Sshbuf.Endian.{to_be_bytes}
use rust_osshkeys.Sshbuf.Buffer.{len, SshBuf, unread}
use rust_osshkeys.Cipher.Table.{is_null, block_size, iv_len, key_len, aes256_cbc, null}
use rust_osshkeys.Keys.Container.{
  KeyPair, pair_keyname, PublicKeyType, KeyPairType, KeyType, Seeds, generate, pair_keytype,
  pair_size, clone_public_key, PublicKey, public_keyname,
}
use rust_osshkeys.Format.Pubkey.Encode.{pair_blob, public_blob}
use rust_osshkeys.Format.Pubkey.Curves.{ed25519_blob, encode_ed25519_pubkey_lem}
use rust_osshkeys.Sshbuf.RoundTrip.{Fits, string_bytes}
use rust_osshkeys.Sshbuf.Utf8.{is_utf8}
use rust_osshkeys.Format.Privkey.Parts.{parts_bytes}
use rust_osshkeys.Format.Privkey.KeyRoundTrip.{key_bytes}
use rust_osshkeys.Format.Privkey.Encode.{encode_ossh_priv, used_rounds, private_section}
use rust_osshkeys.Format.Privkey.Decode.{has_passphrase, decode_ossh_priv, check_padding}
use rust_osshkeys.Format.Privkey.Padding.{pads, check_padding_iff}
use rust_osshkeys.Format.Privkey.Secret.{fields_bytes, private_section_lem}
use rust_osshkeys.Format.Privkey.FileParts.{IsWritableFile}
use rust_osshkeys.Format.Privkey.File.{decode-encode_ossh_priv, decode-encode_no_pass}
use rust_osshkeys.Keys.Ecdsa
use rust_osshkeys.Keys.Ecdsa.{EcCurve, nid, curve_of_size, group_of}
use rust_osshkeys.Tests.KeyObjects.{key_objects, RsaPrivate}
use rust_osshkeys.Tests.Services.{services, vectors, spelling}
use rust_osshkeys.Format.Privkey.Armor.{
  begin_line, end_line, fits_columns, serialize_ossh_privkey, serialize_ossh_privkey_lem,
}
use rust_osshkeys.External.Pems.{without_feeds}
use rust_osshkeys.Format.Privkey.Cloning.{clone_public_key-Matches}
use rust_osshkeys.Keys.Generation.{generate_refuses, requested_size, generate_size}
use rust_osshkeys.Keys.RandomArt.Walk.{
  Worm, IsInside, worm_start, worm_walk, worm_walk-IsInside, worm_start-IsInside,
}
use rust_osshkeys.Keys.RandomArt.Lines.{IsPicture}
use rust_osshkeys.Keys.RandomArt.Fingerprint.{
  FingerprintHash, Hashers, public_randomart, pair_randomart, randomart_total,
}

abbrev pub ed_key : KeyPair key_objects
ed_key = record { key = KeyPairType.ed25519 (record { key = true }); comment = ascii "me" }

ed_blob-Fits : (b : Bytes) → pair_blob key_objects ed_key.key ≡ ok b → Fits b
unfolding pair_blob ed25519_blob string_bytes to_be_bytes
ed_blob-Fits b h =
    let made = encode_ed25519_pubkey_lem key_objects true in
    let same : ed25519_blob key_objects (key_objects.ed.to_bytes true) ≡ b = cc in
    subst Fits same (omega arith)

pub ed_key-IsWritableFile :
    IsWritableFile services ed_key aes256_cbc (ascii "pw") (replicate 16 3) 0 7
unfolding is_utf8 used_rounds key_len iv_len fields_bytes key_bytes parts_bytes pair_keyname
    string_bytes to_be_bytes
ed_key-IsWritableFile = record {
  pair = tt;
  text = refl;
  fits = omega arith;
  small = omega arith;
  blob_fits = ed_blob-Fits;
  fields_fit = omega arith;
  can_seal = λ _. record {
    keyder = replicate 48 7;
    derived = refl;
    not_empty = λ e. cc;
    salt_len = refl;
    rounds_fit = omega arith;
  };
}

pub ed_key-IsPlainFile : IsWritableFile services ed_key null (ascii "pw") (replicate 16 3) 0 7
unfolding is_utf8 used_rounds key_len iv_len fields_bytes key_bytes parts_bytes pair_keyname
    string_bytes to_be_bytes
ed_key-IsPlainFile = record {
  pair = tt;
  text = refl;
  fits = omega arith;
  small = omega arith;
  blob_fits = ed_blob-Fits;
  fields_fit = omega arith;
  can_seal = λ _. record {
    keyder = [];
    derived = refl;
    not_empty = λ e. cc;
    salt_len = refl;
    rounds_fit = omega arith;
  };
}

decode-encode_ossh_priv_example :
    (file : Bytes) × (encode_ossh_priv services ed_key (ascii "pw") aes256_cbc 0 (replicate 16 3) 7
      ≡ ok file)
    × (decode_ossh_priv services file (some (ascii "pw")) ≡ ok ed_key)
decode-encode_ossh_priv_example =
    decode-encode_ossh_priv services ed_key aes256_cbc (ascii "pw") (replicate 16 3) 0 7
      ed_key-IsWritableFile

abbrev padded_buffer : SshBuf vectors
padded_buffer = record { buf = 9 ∷ 1 ∷ 2 ∷ 3 ∷ []; read_pos = 1 }

check_padding_iff_example :
    ((t : SshBuf vectors) × (check_padding services
          (suc (len vectors padded_buffer))
          0
          padded_buffer
        ≡ ok (tt, t))
      × (unread vectors padded_buffer ≡ pads 0 (length (unread vectors padded_buffer))))
    ⊎ ((check_padding services (suc (len vectors padded_buffer)) 0 padded_buffer
          ≡ fail invalid_key_format)
        × (unread vectors padded_buffer ≢ pads 0 (length (unread vectors padded_buffer))))
check_padding_iff_example = check_padding_iff services padded_buffer

private_section_lem_example :
    (n : ℕ) × (n < block_size aes256_cbc)
    × (private_section services ed_key aes256_cbc 7
        ≡ ok (fields_bytes services ed_key tt (omega arith) 7 ++ pads 0 n))
    × (length (fields_bytes services ed_key tt (omega arith) 7 ++ pads 0 n) % block_size aes256_cbc
        ≡ 0)
private_section_lem_example = private_section_lem services ed_key tt (omega arith) 7 aes256_cbc

abbrev hashers : Hashers
hashers = record { hash = λ _ b. b }

ed_public_blob :
    public_blob key_objects (PublicKeyType.ed25519 (record { key = true }))
    ≡ ok (ed25519_blob key_objects (key_objects.ed.to_bytes true))
unfolding public_blob
ed_public_blob = encode_ed25519_pubkey_lem key_objects true

ed_pair_blob :
    pair_blob key_objects ed_key.key ≡ ok (ed25519_blob key_objects (key_objects.ed.to_bytes true))
unfolding pair_blob
ed_pair_blob = encode_ed25519_pubkey_lem key_objects true

randomart_total_example :
    ((art : Bytes) × (public_randomart key_objects hashers
          (PublicKeyType.ed25519 (record { key = true }))
          FingerprintHash.sha256
        ≡ ok art)
      × IsPicture art)
    × ((art : Bytes) × (pair_randomart key_objects hashers ed_key.key FingerprintHash.sha256
          ≡ ok art)
        × IsPicture art)
randomart_total_example =
    randomart_total key_objects hashers (PublicKeyType.ed25519 (record { key = true })) ed_key.key
      FingerprintHash.sha256 _ _ ed_public_blob ed_pair_blob

worm_walk-IsInside_example : (w : Worm) × (worm_walk (7 ∷ 255 ∷ []) worm_start ≡ ok w) × IsInside w
worm_walk-IsInside_example = worm_walk-IsInside (7 ∷ 255 ∷ []) worm_start worm_start-IsInside

abbrev no_number : RsaPrivate
no_number = record { n = []; e = []; d = []; p = []; q = []; dmp1 = []; dmq1 = []; iqmp = [] }

abbrev seeds : Seeds key_objects
seeds = record {
  rsa_seed = no_number;
  dsa_seed = record { p = []; q = []; g = []; priv_key = []; pub_key = [] };
  ec_seed = ([], []);
  ed_seed = true;
}

generate_refuses_example : generate key_objects seeds KeyType.ecdsa 284 ≡ fail invalid_key_size
generate_refuses_example = generate_refuses key_objects seeds 284 KeyType.ecdsa refl

abbrev ec_generated : KeyPair key_objects
ec_generated = record {
  key = KeyPairType.ecdsa (record {
    key = record { group = nid EcCurve.nistp384; point = []; number = [] };
    curve = EcCurve.nistp384;
  });
  comment = [];
}

generate_ec_pair : generate key_objects seeds KeyType.ecdsa 384 ≡ ok ec_generated
unfolding generate Ecdsa.generate curve_of_size group_of
generate_ec_pair = refl

generate_size_example :
    (pair_size key_objects ec_generated.key ≡ requested_size 384 KeyType.ecdsa)
    × (pair_keytype key_objects ec_generated.key ≡ KeyType.ecdsa)
    × (ec_generated.comment ≡ [])
generate_size_example =
    generate_size key_objects seeds 384 KeyType.ecdsa ec_generated generate_ec_pair

decode-encode_no_pass_example :
    (file : Bytes) × (encode_ossh_priv services ed_key (ascii "pw") aes256_cbc 0 (replicate 16 3) 7
      ≡ ok file)
    × (decode_ossh_priv services file (some []) ≡ fail incorrect_pass)
decode-encode_no_pass_example =
    decode-encode_no_pass services ed_key aes256_cbc (ascii "pw") (replicate 16 3) 0 7 (some [])
      ed_key-IsWritableFile (unfold is_null in refl) (unfold has_passphrase bytes_eq in refl)

abbrev ed_cloned : PublicKey key_objects
ed_cloned = record { key = PublicKeyType.ed25519 (record { key = true }); comment = ascii "me" }

clone_ed : clone_public_key key_objects ed_key ≡ ok ed_cloned
unfolding clone_public_key
clone_ed = refl

clone_public_key-Matches_example :
    (public_keyname key_objects ed_cloned.key ≡ pair_keyname key_objects ed_key.key)
    × (public_blob key_objects ed_cloned.key ≡ pair_blob key_objects ed_key.key)
    × (ed_cloned.comment ≡ ed_key.comment)
clone_public_key-Matches_example = clone_public_key-Matches key_objects ed_key ed_cloned tt clone_ed

abbrev ed_file : Bytes
ed_file =
    (decode-encode_ossh_priv services ed_key aes256_cbc (ascii "pw") (replicate 16 3) 0 7
      ed_key-IsWritableFile).0

ed_file_made :
    encode_ossh_priv services ed_key (ascii "pw") aes256_cbc 0 (replicate 16 3) 7 ≡ ok ed_file
ed_file_made =
    (decode-encode_ossh_priv services ed_key aes256_cbc (ascii "pw") (replicate 16 3) 0 7
      ed_key-IsWritableFile).1

serialize_ossh_privkey_lem_example :
    (body : Bytes) × (serialize_ossh_privkey services spelling ed_key
        (ascii "pw")
        aes256_cbc
        0
        (replicate 16 3)
        7
      ≡ ok (begin_line ++ (body ++ end_line)))
    × (fits_columns 0 body ≡ true)
    × (spelling.decode (without_feeds body) ≡ ok ed_file)
serialize_ossh_privkey_lem_example =
    serialize_ossh_privkey_lem services spelling ed_key (ascii "pw") aes256_cbc 0 (replicate 16 3) 7
      ed_file ed_file_made
