-- ===== src/Tests/BlobExamples.antt =====
-- The theorems on the binary forms of keys at concrete inputs.
use rust_osshkeys.Prelude.{
  sym, subst, not, ℕ, ◌≡◌, refl, arith, ap, Bytes, [], ◌∷◌, ascii, replicate, true, ok, length, ◌≤◌,
}
use rust_osshkeys.Sshbuf.RoundTrip.{RoundTrips}
use rust_osshkeys.External.KeyTypes.{x9_62_prime256v1}
use rust_osshkeys.Sshbuf.Memory.{cursor_reader, vec_writer}
use rust_osshkeys.Sshbuf.Read.{max_bignum}
use rust_osshkeys.Sshbuf.Mpint.{IsWritable}
use rust_osshkeys.Keys.Rsa.{sha2_256}
use rust_osshkeys.Keys.Ecdsa.{nid, nistp256}
use rust_osshkeys.Keys.Container.{PublicKeyType, KeyPairType, public_keyname}
use rust_osshkeys.Format.Pubkey.Encode.{public_blob}
use rust_osshkeys.Format.Pubkey.Words.{split_ascii_whitespace}
use rust_osshkeys.Format.Pubkey.Line.{serialize_ossh_pubkey, parse_ossh_pubkey}
use rust_osshkeys.Format.Pubkey.LineRoundTrip.{parsed_as, parse-serialize}
use rust_osshkeys.Format.Privkey.Key.{encode_key, decode_key}
use rust_osshkeys.Format.Privkey.Parts.{CanEncodePair}
use rust_osshkeys.Format.Privkey.KeyRoundTrip.{key-RoundTrips}
use rust_osshkeys.Tests.Numbers.{numbers, digits, is_normal}
use rust_osshkeys.Tests.KeyObjects.{key_objects}
use rust_osshkeys.Tests.Services.{spelling}

abbrev ec_public : PublicKeyType key_objects
ec_public =
    PublicKeyType.ecdsa (record {
      key = record { group = x9_62_prime256v1; point = 4 ∷ 1 ∷ 2 ∷ [] };
      curve = nistp256;
    })

parse-serialize_example :
    (line : Bytes) × (serialize_ossh_pubkey spelling
        (public_keyname key_objects ec_public)
        (public_blob key_objects ec_public)
        (ascii "me")
      ≡ ok line)
    × (parse_ossh_pubkey key_objects spelling line
        ≡ parsed_as key_objects ec_public (split_ascii_whitespace (ascii "me")))
parse-serialize_example =
    parse-serialize key_objects spelling ec_public (ascii "me")
      (4 ∷ 1 ∷ 2 ∷ [], record { in_group = unfold nid in refl; encoded = refl; fits = omega arith })

-- A number of one digit can be written.
digit-IsWritable :
    (b : ℕ) → digits (b ∷ []) ≡ b ∷ [] → is_normal (b ∷ []) ≡ true → IsWritable numbers (b ∷ [])
digit-IsWritable b e h = record {
  not_negative = ap not h;
  not_zero = λ z. cc;
  short = subst (λ d. length d ≤ max_bignum) (sym e) (omega arith);
}

abbrev rsa_pair : KeyPairType key_objects
rsa_pair = KeyPairType.rsa (record {
  rsa = record {
    n = replicate 128 1;
    e = 3 ∷ [];
    d = 5 ∷ [];
    p = 7 ∷ [];
    q = 11 ∷ [];
    dmp1 = 5 ∷ [];
    dmq1 = 5 ∷ [];
    iqmp = 2 ∷ [];
  };
  signhash = sha2_256;
})

rsa_pair-CanEncodePair : CanEncodePair key_objects rsa_pair
rsa_pair-CanEncodePair = record {
  p = 7 ∷ [];
  q = 11 ∷ [];
  iqmp = 2 ∷ [];
  dmp1 = 5 ∷ [];
  dmq1 = 5 ∷ [];
  one = 1 ∷ [];
  has_p = refl;
  has_q = refl;
  has_iqmp = refl;
  has_dmp1 = refl;
  has_dmq1 = refl;
  is_one = refl;
  reduced_p = refl;
  reduced_q = refl;
  n_writable = record { not_negative = refl; not_zero = λ e. cc; short = omega arith };
  e_writable = digit-IsWritable 3 refl refl;
  d_writable = digit-IsWritable 5 refl refl;
  p_writable = digit-IsWritable 7 refl refl;
  q_writable = digit-IsWritable 11 refl refl;
  iqmp_writable = digit-IsWritable 2 refl refl;
  min_size = omega arith;
  max_size = omega arith;
}

key-RoundTrips_example :
    RoundTrips vec_writer cursor_reader
      (encode_key key_objects vec_writer rsa_pair)
      (decode_key key_objects cursor_reader)
      rsa_pair
key-RoundTrips_example =
    key-RoundTrips key_objects vec_writer cursor_reader rsa_pair rsa_pair-CanEncodePair
