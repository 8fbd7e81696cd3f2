-- ===== src/Format/Privkey/FileParts.antt =====
-- The parts of a private key file: how `encode_ossh_priv` makes them, without a cipher and with one.
use rust_osshkeys.Prelude.{
  ◌&&◌, bytes_eq, ℕ, ◌+◌, ◌^◌, ◌<◌, ◌≡◌, inl, inr, refl, sym, subst, arith, Bytes, [], ◌++◌, length,
  length-append, ok, true, false, some, Bool,
}
use rust_osshkeys.External.OsshLib.{OsshLib}
use rust_osshkeys.External.KeyTypes.{KeyLib}
use rust_osshkeys.Sshbuf.Endian.{to_be_bytes}
use rust_osshkeys.Sshbuf.Utf8.{IsText}
use rust_osshkeys.Sshbuf.Memory.{vec_writer}
use rust_osshkeys.Sshbuf.Reader.{Writes}
use rust_osshkeys.Sshbuf.Rules.{Writes-seq, Writes-lift_bind}
use rust_osshkeys.Sshbuf.RoundTrip.{Fits, string_bytes}
use rust_osshkeys.Sshbuf.Buffer.{with_vec}
use rust_osshkeys.Cipher.Table.{Cipher, block_size, is_null, is_some}
use rust_osshkeys.Cipher.Names.{from_str-name}
use rust_osshkeys.Keys.Container.{KeyPair, KeyPairType}
use rust_osshkeys.Format.Wire.{into_vec_of, Writes-string, Writes-text}
use rust_osshkeys.Format.Pubkey.Encode.{pair_blob, encode_ecdsa_pubkey}
use rust_osshkeys.Format.Pubkey.Integers.{encode_rsa_pubkey_lem, encode_dsa_pubkey_lem}
use rust_osshkeys.Format.Pubkey.Curves.{ecdsa_blob, Fits-names, encode_ed25519_pubkey_lem}
use rust_osshkeys.Format.Privkey.Parts.{CanEncodePair}
use rust_osshkeys.Format.Privkey.Encode.{
  kdf_bcrypt, kdf_none, put_kdf, used_rounds, seal, private_section,
}
use rust_osshkeys.Format.Privkey.Decode.{decrypt_ossh_priv}
use rust_osshkeys.Format.Privkey.Padding.{pads, length-pads, block_sizes}
use rust_osshkeys.Format.Privkey.Secret.{
  fields_bytes, length-fields_bytes, private_section_lem, decode_secret_lem,
}
use rust_osshkeys.Format.Privkey.Sealed.{
  null_or_some, bytes_eq-ne-nil, one_block, options_bytes, kdf_options_lem, CanSeal, sealed,
  seal_lem, decrypt_ossh_priv_lem,
}
use rust_osshkeys.Format.Privkey.Body.{kdf-IsText, IsReadAs}

length-options_bytes :
    (salt : Bytes) (rounds : ℕ) → length salt ≡ 16 → Fits (options_bytes salt rounds)
unfolding options_bytes string_bytes to_be_bytes
length-options_bytes salt rounds h = omega (arith, h, length-append salt (to_be_bytes 4 rounds))

pub and_false : (b : Bool) → (b && false) ≡ false
and_false true = refl
and_false false = refl

-- A key that can be encoded has a public blob.
pair_blob_lem :
    (lib : KeyLib) (k : KeyPairType lib)
    → CanEncodePair lib k
    → (blob : Bytes) × (pair_blob lib k ≡ ok blob)
unfolding pair_blob encode_ecdsa_pubkey ecdsa_blob
pair_blob_lem lib (KeyPairType.rsa k) h =
    (_, encode_rsa_pubkey_lem lib _ _ h.e_writable h.n_writable)
pair_blob_lem lib (KeyPairType.dsa k) h =
    (_, encode_dsa_pubkey_lem lib _ _ _ _ h.p h.q h.g h.pub_key)
pair_blob_lem lib (KeyPairType.ecdsa k) h =
    let (fn, fi) = Fits-names lib k.curve in
    (
      ecdsa_blob lib k.curve h.point,
      into_vec_of _ _ (
          Writes-seq _ _ (Writes-text vec_writer _ fn) (
            Writes-seq _ _ (Writes-text vec_writer _ fi) (
              Writes-lift_bind _ _ (rw h.encoded refl) (Writes-string vec_writer h.point h.fits)))),
    )
pair_blob_lem lib (KeyPairType.ed25519 k) h = (_, encode_ed25519_pubkey_lem lib _)

module _ (lib : OsshLib) where
  -- What is needed of a key and of the arguments for the file to be written: the key can be
  -- encoded, the comment is text, the salt and the numbers have their size, the parts are not longer
  -- than a length prefix can tell, and with a cipher there is a passphrase that a key is derived from.
  pub record IsWritableFile (key : KeyPair lib.keys) (c : Cipher) (pass salt : Bytes)
      (rounds checksum : ℕ) : Type 0 where
    pub pair : CanEncodePair lib.keys key.key
    pub text : IsText key.comment
    pub fits : Fits key.comment
    pub small : checksum < 2 ^ 32
    pub blob_fits : (b : Bytes) → pair_blob lib.keys key.key ≡ ok b → Fits b
    pub fields_fit : length (fields_bytes lib key pair fits checksum) + 32 < 2 ^ 32
    pub can_seal : is_some c ≡ true → CanSeal lib c pass salt (used_rounds rounds)

  -- How the parts of a file are made, and that they are read as the key.
  pub record Parts (key : KeyPair lib.keys) (c : Cipher) (pass salt : Bytes) (rounds checksum : ℕ)
      : Type 0 where
    pub kdfname : Bytes
    pub kdf : Bytes
    pub blob : Bytes
    pub priv : Bytes
    pub content : Bytes
    pub with_pass : (is_some c && bytes_eq pass []) ≡ false
    pub kdf_put :
        Writes vec_writer
          (put_kdf c salt (used_rounds rounds))
          (string_bytes kdfname ++ string_bytes kdf)
          tt
    pub has_blob : pair_blob lib.keys key.key ≡ ok blob
    pub has_priv : private_section lib key c checksum ≡ ok priv
    pub is_sealed : seal lib priv pass c (used_rounds rounds) salt ≡ ok content
    pub read_as : IsReadAs lib key c (some pass) kdfname kdf blob content

  -- The private section fits, with a block to spare.
  length-priv :
      (c : Cipher) (fields : Bytes) (n : ℕ)
      → length fields + 32 < 2 ^ 32
      → n < block_size c
      → length (fields ++ pads 0 n) + block_size c < 2 ^ 32
  length-priv c fields n h k = elim (block_sizes c) [
    | inl e ↦ omega (arith, e, length-append fields (pads 0 n), length-pads 0 n)
    | inr e ↦ omega (arith, e, length-append fields (pads 0 n), length-pads 0 n)
  ]

  module _ (key : KeyPair lib.keys) (pass salt : Bytes) (rounds checksum : ℕ) where
    Parts-null :
        IsWritableFile key Cipher.null pass salt rounds checksum
        → Parts key Cipher.null pass salt rounds checksum
    unfolding is_some put_kdf seal decrypt_ossh_priv is_null with_vec bytes_eq
    Parts-null h =
        let c = Cipher.null in
        let (blob, hb) = pair_blob_lem lib.keys key.key h.pair in
        let (n, few, made, full) = private_section_lem lib key h.pair h.fits checksum c in
        let priv = fields_bytes lib key h.pair h.fits checksum ++ pads 0 n in
        let pos = length-fields_bytes lib key h.pair h.fits checksum (pads 0 n) in
        let (long, blocks) = one_block c (length priv) pos full in
        let secret = with_vec lib.cv (lib.cv.from_slice priv) in
        let (after, decoded) =
          decode_secret_lem lib key h.pair h.fits checksum h.text h.small n secret
            (lib.cv.as_slice-from_slice priv) in
        record {
          kdfname = kdf_none;
          kdf = [];
          blob = blob;
          priv = priv;
          content = priv;
          with_pass = refl;
          kdf_put =
              Writes-seq _ _ (Writes-text vec_writer kdf_none (omega arith))
                (Writes-string vec_writer [] (omega arith));
          has_blob = hb;
          has_priv = made;
          is_sealed = refl;
          read_as = record {
            kdfname_fits = omega arith;
            kdfname_text = kdf-IsText.1;
            kdf_fits = omega arith;
            blob_fits = h.blob_fits blob hb;
            content_fits = omega (arith, length-priv c _ n h.fields_fit few);
            secret = secret;
            after = after;
            decrypted = rw (from_str-name c, and_false, long, blocks) refl;
            decoded = decoded;
          };
        }

    Parts-some :
        (c : Cipher)
        → is_some c ≡ true
        → is_null c ≡ false
        → IsWritableFile key c pass salt rounds checksum
        → Parts key c pass salt rounds checksum
    unfolding put_kdf
    Parts-some c is isnt h =
        let can = h.can_seal is in
        let (blob, hb) = pair_blob_lem lib.keys key.key h.pair in
        let (n, few, made, full) = private_section_lem lib key h.pair h.fits checksum c in
        let priv = fields_bytes lib key h.pair h.fits checksum ++ pads 0 n in
        let pos = length-fields_bytes lib key h.pair h.fits checksum (pads 0 n) in
        let (done, size) =
          seal_lem lib c pass salt (used_rounds rounds) can is isnt priv full pos in
        let (secret, decrypted, left) =
          decrypt_ossh_priv_lem lib c pass salt (used_rounds rounds) can is isnt priv full pos in
        let (after, decoded) =
          decode_secret_lem lib key h.pair h.fits checksum h.text h.small n secret left in
        let salted : Fits salt = omega (arith, can.salt_len) in
        let (options, _) = kdf_options_lem salt (used_rounds rounds) salted can.rounds_fit in
        let short = length-options_bytes salt (used_rounds rounds) can.salt_len in
        record {
          kdfname = kdf_bcrypt;
          kdf = options_bytes salt (used_rounds rounds);
          blob = blob;
          priv = priv;
          content = sealed lib c pass salt (used_rounds rounds) can is isnt priv full pos;
          with_pass = rw (is, bytes_eq-ne-nil pass can.not_empty) refl;
          kdf_put = rw is (
              Writes-seq _ _ (Writes-text vec_writer kdf_bcrypt (omega arith))
                (Writes-lift_bind _ _ options (Writes-string vec_writer _ short)));
          has_blob = hb;
          has_priv = made;
          is_sealed = done;
          read_as = record {
            kdfname_fits = omega arith;
            kdfname_text = kdf-IsText.0;
            kdf_fits = short;
            blob_fits = h.blob_fits blob hb;
            content_fits = omega (arith, size, length-priv c _ n h.fields_fit few);
            secret = secret;
            after = after;
            decrypted = decrypted;
            decoded = decoded;
          };
        }

    pub Parts-of :
        (c : Cipher)
        → IsWritableFile key c pass salt rounds checksum
        → Parts key c pass salt rounds checksum
    Parts-of c h = elim (null_or_some c) [
      | inl e ↦
          subst (λ d. Parts key d pass salt rounds checksum) (sym e)
            (Parts-null (subst (λ d. IsWritableFile key d pass salt rounds checksum) e h))
      | inr (is, isnt) ↦ Parts-some c is isnt h
    ]
